-- ===== src/ShardMaster/Numbering.antt =====
-- The numbers of the configs, and what `Query` of src/shardmaster/server.go finds by them.
use mathlib.Core.Path.{subst}
use distributed_systems_engi.Base.{
  ℤ, ℕ, zero, suc, ◌+◌, ◌<◌, ◌≤◌, ◌≡◌, refl, ◌∙◌, ap, true, some, List, [], ◌∷◌, ◌++◌, pos, ltb,
  int_eq, string_eq, length, get_elem?, arith,
}
use distributed_systems_engi.ShardMaster.{
  Config, Op, ShardMaster, Order, no_owners, n_shards, join_config, leave_config, move_config,
  find_num, query, exec_op, Pass, returns,
}
use distributed_systems_engi.ShardMaster.Updates.{
  Update, joins, leaves, moves, nothing, exec_op-keeps,
}

-- The configs from index `i` on have one more than their index as number.
unfoldable pub NumberedFrom : ℕ → List Config → Type 0
NumberedFrom i [] = Unit
NumberedFrom i (c ∷ cs) = (c.num ≡ suc i) × NumberedFrom (suc i) cs

-- Config 0 has the number 0, and each later one has one more than its index.
abbrev pub IsNumbered : List Config → Type 0
IsNumbered [] = ⊥
IsNumbered (c ∷ cs) = (c.num ≡ 0) × NumberedFrom 1 cs

NumberedFrom-append :
    (i : ℕ) (cs : List Config) (c : Config)
    → NumberedFrom i cs
    → c.num ≡ i + length cs + 1
    → NumberedFrom i (cs ++ c ∷ [])
unfolding NumberedFrom
NumberedFrom-append i [] c h e = (omega arith, tt)
NumberedFrom-append i (d ∷ cs) c h e = (h.0, NumberedFrom-append (suc i) cs c h.1 (omega arith))

IsNumbered-append :
    (cs : List Config) (c : Config)
    → IsNumbered cs
    → c.num ≡ length cs + 1
    → IsNumbered (cs ++ c ∷ [])
IsNumbered-append [] c h e = absurd h
IsNumbered-append (d ∷ cs) c h e = (h.0, NumberedFrom-append 1 cs c h.1 (omega arith))

-- An update keeps the numbers of the configs in step with their indices.
Update-IsNumbered :
    (o : Order) (op : Op) (cs cs' : List Config)
    → IsNumbered cs
    → Update o op cs cs'
    → IsNumbered cs'
unfolding join_config leave_config move_config
Update-IsNumbered o op cs _ h (joins c t e) = IsNumbered-append cs _ h refl
Update-IsNumbered o op cs _ h (leaves c d t e made) =
    IsNumbered-append cs d h (ground (arith, made))
Update-IsNumbered o op cs _ h (moves c t e) = IsNumbered-append cs _ h refl
Update-IsNumbered o op cs _ h nothing = h

-- `ExecOp` keeps the numbers of the configs in step with their indices, whatever the log and the
-- orders of the map ranges are, and whatever passes it makes: where it returns, config 0 has the
-- number 0 and each later config one more than its index.
pub exec_op-IsNumbered :
    (log : ℤ → Op) (orders : ℤ → Order) (args : Op) (ps : List Pass) (sm sm' : ShardMaster)
    → IsNumbered sm.configs
    → exec_op log orders args ps sm ≡ returns sm'
    → IsNumbered sm'.configs
exec_op-IsNumbered log orders =
    exec_op-keeps IsNumbered log orders (λ i. Update-IsNumbered (orders i) (log i))

find_num-past :
    (n i : ℕ) (found : Config) (cs : List Config)
    → NumberedFrom i cs
    → n ≤ i
    → find_num (pos n) found cs ≡ found
unfolding find_num NumberedFrom
find_num-past n i found [] h le = refl
find_num-past n i found (c ∷ cs) h le = ground (arith, h.0, find_num-past n (suc i) found cs h.1)

-- The loop of `Query` ends with the config at index `n - 1`, if there is one from index `i` on.
find_num-at :
    (n i j : ℕ) (found : Config) (cs : List Config) (c : Config)
    → NumberedFrom i cs
    → n ≡ i + j + 1
    → get_elem? cs j ≡ some c
    → find_num (pos n) found cs ≡ c
unfolding find_num NumberedFrom
find_num-at n i j found [] c h e g = cc
find_num-at n i zero found (d ∷ cs) c h e g =
    ground (arith, h.0, g, find_num-past n (suc i) d cs h.1)
find_num-at n i (suc j) found (d ∷ cs) c h e g =
    ground (arith, h.0, find_num-at n (suc i) j found cs c h.1, g)

-- Go's zero config
abbrev no_config : Config
no_config = record { num = 0; shards = no_owners n_shards; groups = [] }

-- `Query` for a number `j + 2` below the count of the configs replies the config at index `j + 1`,
-- which has that number.
pub query-finds :
    (sm : ShardMaster) (c0 c : Config) (cs : List Config) (j : ℕ)
    → sm.configs ≡ c0 ∷ cs
    → IsNumbered sm.configs
    → get_elem? cs j ≡ some c
    → j + 2 < length sm.configs
    → query (pos (j + 2)) sm ≡ some c
unfolding query
query-finds sm c0 c cs j e h at lt =
    let below : ltb (j + 2) (length sm.configs) ≡ true = ground arith in
    let numbered : IsNumbered (c0 ∷ cs) = subst IsNumbered e h in
    let q : find_num (pos (j + 2)) no_config sm.configs ≡ c =
      ap (find_num (pos (j + 2)) no_config) e
      ∙ unfold find_num in
        ground (arith, find_num-at (j + 2) 1 j no_config cs c numbered.1, numbered.0) in
    ground (arith, q)

find_num-one : (cs : List Config) → IsNumbered cs → find_num (pos 1) no_config cs ≡ no_config
unfolding find_num
find_num-one [] h = refl
find_num-one (c ∷ cs) h = ground (arith, find_num-past 1 1 no_config cs h.1, h.0)

-- No config has the number 1: once a group has joined, `Query(1)` replies the zero config, which has
-- no groups.
pub query-skips :
    (sm : ShardMaster)
    → IsNumbered sm.configs
    → 1 < length sm.configs
    → query (pos 1) sm ≡ some (record { num = 0; shards = no_owners n_shards; groups = [] })
unfolding query
query-skips sm h lt = ground (arith, find_num-one sm.configs h)
