-- ===== src/ShardMaster/Clerk.antt =====
-- src/shardmaster/client.go: a client of the shard master, which tries each of its servers in turn,
-- again and again, until a call succeeds. What the calls of a pass bring is a parameter.
use distributed_systems_engi.Base.{
  ◌≡◌, refl, String, Option, none, some, List, [], ◌∷◌, ◌++◌, map, ℤ, arith, Option-cases, inl, inr,
}
use distributed_systems_engi.ShardMaster.{Config}

pub record Clerk : Type 0 where
  pub servers : List String

-- `MakeClerk`
abbrev pub make_clerk : List String → Clerk
make_clerk servers = record { servers = servers }

-- The inner loop
unfoldable pub try_each {ℓ} : {R : Type ℓ} → (String → Option R) → List String → Option R
try_each call [] = none
try_each call (srv ∷ servers) =
    let rest = try_each call servers in elim (call srv) [ none ↦ rest | some reply ↦ some reply ]

-- The outer loop over its passes; `none` where it is still in the loop after them.
unfoldable pub ask {ℓ} : {R : Type ℓ} → List (String → Option R) → List String → Option R
unfolding try_each
ask [] servers = none
ask (call ∷ calls) servers =
    let rest = ask calls servers in
    elim (try_each call servers) [ none ↦ rest | some reply ↦ some reply ]

pub record QueryArgs : Type 0 where
  pub num : ℤ

pub record JoinArgs : Type 0 where
  pub gid : ℤ
  pub servers : List String

pub record LeaveArgs : Type 0 where
  pub gid : ℤ

pub record MoveArgs : Type 0 where
  pub shard : ℤ
  pub gid : ℤ

-- The replies to Join, Leave and Move say nothing.
pub record Done : Type 0 where

unfoldable pub query : ℤ → (QueryArgs → List (String → Option Config)) → Clerk → Option Config
unfolding ask
query num calls ck = ask (calls (record { num = num })) ck.servers

unfoldable pub join :
    ℤ → List String → (JoinArgs → List (String → Option Done)) → Clerk → Option Done
unfolding ask
join gid servers calls ck = ask (calls (record { gid = gid; servers = servers })) ck.servers

unfoldable pub leave : ℤ → (LeaveArgs → List (String → Option Done)) → Clerk → Option Done
unfolding ask
leave gid calls ck = ask (calls (record { gid = gid })) ck.servers

unfoldable pub move : ℤ → ℤ → (MoveArgs → List (String → Option Done)) → Clerk → Option Done
unfolding ask
move shard gid calls ck = ask (calls (record { shard = shard; gid = gid })) ck.servers

unfoldable pub first_reply {ℓ} : {R : Type ℓ} → List (Option R) → Option R
first_reply [] = none
first_reply (none ∷ replies) = first_reply replies
first_reply (some reply ∷ replies) = some reply

-- The calls of all passes, in the order in which the client makes them
unfoldable pub in_turn {ℓ} : {R : Type ℓ} → List (String → Option R) → List String → List (Option R)
in_turn [] servers = []
in_turn (call ∷ calls) servers = map call servers ++ in_turn calls servers

first_reply-append {ℓ} :
    {R : Type ℓ} (xs ys : List (Option R))
    → first_reply (xs ++ ys)
      ≡ elim (first_reply xs) [ none ↦ first_reply ys | some reply ↦ some reply ]
unfolding first_reply
first_reply-append [] ys = refl
first_reply-append (none ∷ xs) ys = first_reply-append xs ys
first_reply-append (some reply ∷ xs) ys = refl

try_each-first_reply {ℓ} :
    {R : Type ℓ} (call : String → Option R) (servers : List String)
    → try_each call servers ≡ first_reply (map call servers)
unfolding try_each first_reply
try_each-first_reply call [] = refl
try_each-first_reply call (srv ∷ servers) = elim (Option-cases (call srv)) [
  | inl failed ↦ ground (arith, failed, try_each-first_reply call servers)
  | inr (reply, got) ↦ ground (arith, got)
]

-- The loops return the first reply of all the calls that they would make.
pub ask-first_reply {ℓ} :
    {R : Type ℓ} (calls : List (String → Option R)) (servers : List String)
    → ask calls servers ≡ first_reply (in_turn calls servers)
unfolding ask in_turn
ask-first_reply [] servers = unfold first_reply in refl
ask-first_reply (call ∷ calls) servers = ground (
  arith,
  first_reply-append (map call servers) (in_turn calls servers),
  try_each-first_reply call servers,
  ask-first_reply calls servers,
)
