-- ===== src/KvPaxos/Clerk.antt =====
-- src/kvpaxos/client.go: a client of the replicated key/value service, which asks one server after
-- another until one replies OK. What each call brings is a parameter.
use native.Mathlib.Nat.{div-add-mod, mod-lt, mod-eq_of_lt, mul-add-mod_self_left}
use distributed_systems_engi.Base.{
  ℕ, zero, suc, ◌+◌, ◌*◌, ◌/◌, ◌%◌, ◌<◌, ◌≤◌, ◌≡◌, refl, ap, ◌∙◌, inl, inr, String, true, Option,
  none, some, List, [], ◌∷◌, arith, ℤ, pos, ◌+ℤ◌, ◌==◌, int_eq, string_eq, if◌then◌else◌, length,
  get_elem?, is_some, Option-cases, Bool-cases, ℕ_discrete, ==-iff,
}
use distributed_systems_engi.KvPaxos.{GetArgs, PutAppendArgs}

pub record Clerk : Type 0 where
  pub servers : List String
  pub client_id : ℤ
  pub req_num : ℤ

-- `MakeClerk`, with the number that `nrand` gives
abbrev pub make_clerk : List String → ℤ → Clerk
make_clerk servers id = record { servers = servers; client_id = id; req_num = pos 0 }

pub record Reply : Type 0 where
  pub err : String
  pub value : String

-- The loop of `Get` and of `PutAppend` over `n` calls from number `i` on. `none` where it is still in
-- the loop after them, and where the client has no servers, with which `i%size` panics.
unfoldable pub ask : (ℕ → String → Option Reply) → List String → ℕ → ℕ → Option Reply
ask rpc servers zero i = none
ask rpc servers (suc n) i =
    let rest = ask rpc servers n (suc i) in
    elim (get_elem? servers (i % length servers)) [
      | none ↦ none
      | some srv ↦ elim (rpc i srv) [
        | none ↦ rest
        | some reply ↦ if reply.err == "OK" then some reply else rest
      ]
    ]

-- The next request of a client
abbrev pub next_request : Clerk → Clerk
next_request ck = record ck { req_num = ck.req_num +ℤ pos 1 }

abbrev pub get_args : String → Clerk → GetArgs
get_args key ck = record { key = key; client_id = ck.client_id; req_num = ck.req_num }

abbrev pub put_append_args : String → String → String → Clerk → PutAppendArgs
put_append_args key value op ck = record {
  key = key;
  value = value;
  op = op;
  client_id = ck.client_id;
  req_num = ck.req_num;
}

-- `Get`, with at most `n` calls
unfoldable pub get :
    String → (GetArgs → ℕ → String → Option Reply) → ℕ → Clerk → Option (Clerk × String)
unfolding ask
get key rpc n ck =
    let ck' = next_request ck in
    elim (ask (rpc (get_args key ck')) ck'.servers n 0) [
      | none ↦ none
      | some reply ↦ some (ck', reply.value)
    ]

-- `PutAppend`, with at most `n` calls
unfoldable pub put_append :
    String
    → String
    → String
    → (PutAppendArgs → ℕ → String → Option Reply)
    → ℕ
    → Clerk
    → Option Clerk
unfolding ask
put_append key value op rpc n ck =
    let ck' = next_request ck in
    elim (ask (rpc (put_append_args key value op ck')) ck'.servers n 0) [
      | none ↦ none
      | some reply ↦ some ck'
    ]

get_elem?-some {ℓ} :
    {A : Type ℓ} (xs : List A) (i : ℕ) → i < length xs → (x : A) × (get_elem? xs i ≡ some x)
get_elem?-some [] i h = absurd (omega arith)
get_elem?-some (x ∷ xs) zero h = (x, refl)
get_elem?-some (x ∷ xs) (suc i) h = get_elem?-some xs i (omega arith)

get_elem?-length {ℓ} :
    {A : Type ℓ} (xs : List A) (i : ℕ) (x : A) → get_elem? xs i ≡ some x → i < length xs
get_elem?-length [] i x e = cc
get_elem?-length (y ∷ xs) zero x e = omega arith
get_elem?-length (y ∷ xs) (suc i) x e = omega (arith, get_elem?-length xs i x e)

ask-at :
    (rpc : ℕ → String → Option Reply) (servers : List String) (k : ℕ) (srv : String) (r : Reply)
    → 0 < length servers
    → get_elem? servers (k % length servers) ≡ some srv
    → rpc k srv ≡ some r
    → r.err ≡ "OK"
    → (n i : ℕ) → i ≤ k
    → k < i + n
    → is_some (ask rpc servers n i) ≡ true
unfolding ask
ask-at rpc servers k srv r some_servers found replied fine zero i lo hi = absurd (omega arith)
ask-at rpc servers k srv r some_servers found replied fine (suc n) i lo hi = elim (ℕ_discrete i k) [
  | yes e ↦ rw e (ground (arith, found, replied, fine, (==-iff r.err "OK").1 fine))
  | no ne ↦
      let rest =
        ask-at rpc servers k srv r some_servers found replied fine n (suc i) (omega arith)
          (omega arith) in
      let (s, there) = get_elem?-some servers (i % length servers) (mod-lt i some_servers) in
      elim (Option-cases (rpc i s)) [
        | inl failed ↦ ground (arith, there, failed, rest)
        | inr (reply, got) ↦ elim (Bool-cases (reply.err == "OK")) [
          | inl fine' ↦ ground (arith, there, got, fine')
          | inr bad ↦ ground (arith, there, got, bad, rest)
        ]
      ]
]

-- The first call after `start` that goes to the server at position `p`, and where it is at most
round_bounds :
    (start size p : ℕ)
    → p < size
    → (start ≤ size * (start / size + 1) + p) × (size * (start / size + 1) + p < start + 2 * size)
round_bounds start size p h =
    let parts = div-add-mod start size in
    let left : start % size < size = mod-lt start (omega arith) in
    let e : size * (start / size + 1) ≡ size * (start / size) + size = grind arith in
    (omega (arith, parts, left, e), omega (arith, parts, left, e))

ask-reaches :
    (rpc : ℕ → String → Option Reply) (servers : List String) (p start : ℕ) (srv : String)
    → get_elem? servers p ≡ some srv
    → ((i : ℕ) → start ≤ i → (r : Reply) × (rpc i srv ≡ some r) × (r.err ≡ "OK"))
    → is_some (ask rpc servers (start + 2 * length servers) 0) ≡ true
ask-reaches rpc servers p start srv found fine =
    let size = length servers in
    let k = size * (start / size + 1) + p in
    let h : p < size = get_elem?-length servers p srv found in
    let (lo, hi) = round_bounds start size p h in
    let at : k % size ≡ p = mul-add-mod_self_left size (start / size + 1) p ∙ mod-eq_of_lt h in
    let (r, replied, ok) = fine k lo in
    ask-at rpc servers k srv r (omega arith) (ap (get_elem? servers) at ∙ found) replied ok
      (start + 2 * size) 0 (omega arith) (omega (arith, hi))

-- Where some server of the client replies OK from call number `start` on, `Get` and `PutAppend` end
-- within twice as many calls more as there are servers, whatever the others do.
pub clerk-reaches :
    (key value op : String) (get_rpc : GetArgs → ℕ → String → Option Reply)
    (put_rpc : PutAppendArgs → ℕ → String → Option Reply) (ck : Clerk) (p start : ℕ) (srv : String)
    → get_elem? ck.servers p ≡ some srv
    → ((args : GetArgs) (i : ℕ)
        → start ≤ i
        → (r : Reply) × (get_rpc args i srv ≡ some r) × (r.err ≡ "OK"))
    → ((args : PutAppendArgs) (i : ℕ)
        → start ≤ i
        → (r : Reply) × (put_rpc args i srv ≡ some r) × (r.err ≡ "OK"))
    → (is_some (get key get_rpc (start + 2 * length ck.servers) ck) ≡ true)
      × (is_some (put_append key value op put_rpc (start + 2 * length ck.servers) ck) ≡ true)
unfolding get put_append
clerk-reaches key value op get_rpc put_rpc ck p start srv found gets puts =
    let ck' = next_request ck in
    let got =
      ask-reaches (get_rpc (get_args key ck')) ck.servers p start srv found
        (gets (get_args key ck')) in
    let args = put_append_args key value op ck' in
    let put = ask-reaches (put_rpc args) ck.servers p start srv found (puts args) in
    (ground (arith, got), ground (arith, put))
