-- ===== src/ShardKv/Owner.antt =====
-- Which server answers a client of src/shardkv/client.go.
use mathlib.Core.Path.{subst}
use distributed_systems_engi.Base.{
  ◌≡◌, ◌⊎◌, inl, inr, refl, ap, ◌∙◌, String, Option, none, some, List, [], ◌∷◌, ℤ, Str, int_eq,
  lookup, get_elem?, arith, Option-cases, All, All-mono, is_some, true, ◌≢◌,
}
use distributed_systems_engi.ShardMaster.{Config}
use distributed_systems_engi.ShardKv.{
  Err, ok, no_key, wrong_group, GetReply, Clerk, key2shard, servers_for, Pass, Verdict, return,
  stop, continue, try_servers, ask, get_verdict, server_get, server_put_append, empty, get,
  put_append_verdict, put_append,
}

-- An element of a list
pub data Mem {A : Type 0} (x : A) : List A → Type 0 where
  first : {xs : List A} → Mem x (x ∷ xs)
  later : {y : A} {xs : List A} → Mem x xs → Mem x (y ∷ xs)

-- The server belongs to the group that the configuration gives the key's shard to.
pub record Owns (config : Config) (key : Str) (srv : String) : Type 0 where
  pub gid : ℤ
  pub servers : List String
  pub has_shard : get_elem? config.shards (key2shard key) ≡ some gid
  pub has_servers : lookup gid config.groups ≡ some servers
  pub is_member : Mem srv servers

Verdict-cases :
    {A : Type 0} (v : Verdict A) → ((a : A) × (v ≡ return a)) ⊎ ((v ≡ stop) ⊎ (v ≡ continue))
Verdict-cases (return a) = inl (a, refl)
Verdict-cases stop = inr (inl refl)
Verdict-cases continue = inr (inr refl)

servers_for-Owns :
    (key : Str) (config : Config) (servers : List String) (srv : String)
    → servers_for (key2shard key) config ≡ some servers
    → Mem srv servers
    → Owns config key srv
unfolding servers_for
servers_for-Owns key config servers srv e m =
    elim (Option-cases (get_elem? config.shards (key2shard key))) [
      | inl out ↦ cc (e, out)
      | inr (gid, found) ↦ record {
        gid = gid;
        servers = servers;
        has_shard = found;
        has_servers = ground (arith, e, found);
        is_member = m;
      }
    ]

module _ {R A : Type 0} (judge : Option R → Verdict A) where
  try_servers-Mem :
      (reply : String → Option R) (servers : List String) (a : A)
      → try_servers judge reply servers ≡ some a
      → (srv : String) × Mem srv servers × (judge (reply srv) ≡ return a)
  unfolding try_servers
  try_servers-Mem reply [] a e = cc
  try_servers-Mem reply (srv ∷ servers) a e =
      let rest = try_servers-Mem reply servers a in
      elim (Verdict-cases (judge (reply srv))) [
        | inl (b, v) ↦ (srv, first, v ∙ ground (arith, e, v))
        | inr (inl v) ↦ cc (e, v)
        | inr (inr v) ↦ let (srv', m, v') = rest (ground (arith, e, v)) in (srv', later m, v')
      ]

  -- The answer is that of a server of the group that has the shard, in one of the passes.
  abbrev Answered : Str → List (Pass R) → Clerk → A → Type 0
  Answered key ps ck a =
      (p : Pass R) × Mem p ps
      × (srv : String) × Owns ck.config key srv
      × (judge (p.reply srv) ≡ return a)

  -- A value comes from a server of the group that has the shard, in one of the passes.
  ask-Owns :
      (key : Str) (ps : List (Pass R)) (ck ck' : Clerk) (a : A)
      → ask judge key ps ck ≡ some (ck', a)
      → Answered key ps ck' a
  unfolding ask servers_for
  ask-Owns key [] ck ck' a e = cc
  ask-Owns key (p ∷ ps) ck ck' a e =
      let next : Clerk = record { config = p.next_config } in
      let go_on : ask judge key ps next ≡ some (ck', a) → Answered key (p ∷ ps) ck' a = λ r.
        let (p', m, srv, owns, v) = ask-Owns key ps next ck' a r in (p', later m, srv, owns, v) in
      elim (Option-cases (servers_for (key2shard key) ck.config)) [
        | inl unknown ↦ go_on (ground (arith, e, unknown))
        | inr (servers, found) ↦ elim (Option-cases (try_servers judge p.reply servers)) [
          | inl unanswered ↦ go_on (ground (arith, e, found, unanswered))
          | inr (b, answered) ↦
              let (srv, m, v) = try_servers-Mem p.reply servers b answered in
              let done : (ck ≡ ck') × (b ≡ a) = ground (arith, e, found, answered) in
              (
                p,
                first,
                srv,
                subst (λ c. Owns c.config key srv) done.0
                    (servers_for-Owns key ck.config servers srv found m),
                v ∙ ap return done.1,
              )
        ]
      ]

  try_servers-none :
      (reply : String → Option R) (servers : List String)
      → ((srv : String) → judge (reply srv) ≡ continue)
      → try_servers judge reply servers ≡ none
  unfolding try_servers
  try_servers-none reply [] h = refl
  try_servers-none reply (srv ∷ servers) h = ground (arith, h srv, try_servers-none reply servers h)

  -- Where no server gives an answer, the loop goes on.
  ask-none :
      (key : Str) (ps : List (Pass R)) (ck : Clerk)
      → All (λ p. (srv : String) → judge (p.reply srv) ≡ continue) ps
      → ask judge key ps ck ≡ none
  unfolding ask
  ask-none key [] ck h = refl
  ask-none key (p ∷ ps) ck h =
      let rest = ask-none key ps (record { config = p.next_config }) h.1 in
      elim (Option-cases (servers_for (key2shard key) ck.config)) [
        | inl unknown ↦ ground (arith, unknown, rest)
        | inr (servers, found) ↦ ground (arith, found, rest, try_servers-none p.reply servers h.0)
      ]

  try_servers_some :
      (reply : String → Option R) (servers : List String) (srv : String) (a : A)
      → Mem srv servers
      → judge (reply srv) ≡ return a
      → ((s : String) → judge (reply s) ≢ stop)
      → is_some (try_servers judge reply servers) ≡ true
  unfolding try_servers
  try_servers_some reply [] srv a m v h = elim m [ ]
  try_servers_some reply (_ ∷ servers) srv a first v h = ground (arith, v)
  try_servers_some reply (s ∷ servers) srv a (later m) v h =
      let rest = try_servers_some reply servers srv a m v h in
      elim (Verdict-cases (judge (reply s))) [
        | inl (b, w) ↦ ground (arith, w)
        | inr (inl w) ↦ absurd (h s w)
        | inr (inr w) ↦ ground (arith, w, rest)
      ]

get_verdict-fine :
    (x : Err) (value v : String)
    → get_verdict (some (record { err = x; value = value })) ≡ return v
    → ((x ≡ ok) ⊎ (x ≡ no_key)) × (value ≡ v)
unfolding get_verdict
get_verdict-fine empty value v e = cc
get_verdict-fine ok value v e = (inl refl, cc e)
get_verdict-fine no_key value v e = (inr refl, cc e)
get_verdict-fine wrong_group value v e = cc

get_verdict-return :
    (o : Option GetReply) (v : String)
    → get_verdict o ≡ return v
    → (r : GetReply) × (o ≡ some r) × ((r.err ≡ ok) ⊎ (r.err ≡ no_key)) × (r.value ≡ v)
get_verdict-return none v e = unfold get_verdict in cc e
get_verdict-return (some r) v e =
    let (fine, value) = get_verdict-fine r.err r.value v e in (r, refl, fine, value)

-- Where `Get` returns a value, a server replied it, with no error or for a missing key, and the
-- server belongs to the group that has the key's shard in the configuration that the client then has.
pub get-Owns :
    (key : Str) (ps : List (Pass GetReply)) (ck ck' : Clerk) (v : String)
    → get key ps ck ≡ some (ck', v)
    → (p : Pass GetReply) × Mem p ps
      × (srv : String) × Owns ck'.config key srv
      × (r : GetReply) × (p.reply srv ≡ some r)
      × ((r.err ≡ ok) ⊎ (r.err ≡ no_key))
      × (r.value ≡ v)
unfolding get
get-Owns key ps ck ck' v e =
    let (p, m, srv, owns, j) = ask-Owns get_verdict key ps ck ck' v e in
    let (r, replied, fine, value) = get_verdict-return (p.reply srv) v j in
    (p, m, srv, owns, r, replied, fine, value)

-- `Get` returns in a pass in which a server of the group that has the key's shard replies a value and
-- none replies that it is the wrong group.
pub get-returns :
    (key : Str) (p : Pass GetReply) (ps : List (Pass GetReply)) (ck : Clerk) (srv : String)
    (r : GetReply)
    → Owns ck.config key srv
    → p.reply srv ≡ some r
    → r.err ≡ ok
    → ((s : String) → get_verdict (p.reply s) ≢ stop)
    → is_some (get key (p ∷ ps) ck) ≡ true
unfolding get ask servers_for
get-returns key p ps ck srv r owns replied fine right =
    let answers =
      try_servers_some get_verdict p.reply owns.servers srv r.value owns.is_member
        (unfold get_verdict in ground (arith, replied, fine)) right in
    ground (arith, owns.has_shard, owns.has_servers, answers)

-- With the handlers as they stand, `Get` and `PutAppend` never return: whatever servers are asked
-- and whatever configurations the shard master replies, each reply leaves them in their loops.
pub server_get-unserved :
    (key : Str) (gets : List (Pass GetReply)) (puts : List (Pass Err)) (ck : Clerk)
    → All (λ p. (srv : String) → (p.reply srv ≡ none) ⊎ (p.reply srv ≡ some server_get)) gets
    → All (λ p. (srv : String) → (p.reply srv ≡ none) ⊎ (p.reply srv ≡ some server_put_append)) puts
    → (get key gets ck ≡ none) × (put_append key puts ck ≡ none)
unfolding get put_append
server_get-unserved key gets puts ck hg hp =
    let went_on = ask-none put_append_verdict key puts ck (
      All-mono _ _ (λ p h srv. unfold put_append_verdict server_put_append in ground (arith, h srv))
        puts hp) in
    (
      ask-none get_verdict key gets ck (
          All-mono _ _ (λ p h srv. unfold get_verdict server_get in ground (arith, h srv)) gets hg),
      ground (arith, went_on),
    )
