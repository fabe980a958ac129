-- ===== src/ShardMaster.antt =====
-- src/shardmaster/server.go and src/shardmaster/common.go: a replica of the shard master. A group id
-- is an int64, 0 for no group. The log on which the Paxos peers agree is a parameter, and so is the
-- order in which Go's `range` visits a map.
mod Configs
pub mod Handover
pub mod Numbering
pub mod Clerk
pub mod Balance
mod Sums
mod Updates
pub mod Replica
mod Spread
pub mod Filling
pub mod Groups
pub mod Serving
mod Tests
mod ServingTests
unfoldable pub use Configs.*
use distributed_systems_engi.Base.{
  ℕ, zero, suc, ◌+◌, ◌-◌, ◌/◌, ◌%◌, String, Bool, true, false, not, ◌&&◌, ◌||◌, Option, none, some,
  List, [], ◌∷◌, ◌++◌, ℤ, pos, negsuc, ◌+ℤ◌, ltb_ℤ, leb_ℤ, eqb_ℤ, ltb, eqb, ◌==◌, int_eq, nat_eq,
  string_eq, Map, or_zero, is_some, lookup, insert, delete, if◌then◌else◌, length, get_elem?,
  set_at, pos_part, neg_part,
}

pub record ShardMaster : Type 0 where
  pub configs : List Config
  pub min_ins : ℤ
  pub rec_join : Map ℤ Bool
  pub rec_leave : Map ℤ Bool

-- The state that `StartServer` makes: config 0 has no groups.
abbrev pub start_server : ShardMaster
start_server = record {
  configs = record { num = 0; shards = no_owners n_shards; groups = [] } ∷ [];
  min_ins = negsuc 0;
  rec_join = [];
  rec_leave = [];
}

-- sm.configs[len(sm.configs) - 1]; `none` where the index panics.
unfoldable pub latest : List Config → Option Config
latest [] = none
latest (c ∷ []) = some c
latest (c ∷ d ∷ cs) = latest (d ∷ cs)

-- Append what a handler makes of the latest config.
unfoldable pub append_config : Option Config → ShardMaster → Option ShardMaster
append_config none sm = none
append_config (some c) sm = some (record sm { configs = sm.configs ++ c ∷ [] })

unfoldable pub join_handle : Order → Op → ShardMaster → Option ShardMaster
unfolding join_config latest append_config
join_handle o op sm = elim (latest sm.configs) [
  | none ↦ none
  | some c ↦ append_config (some (join_config o op (length sm.configs) c)) sm
]

unfoldable pub leave_handle : Order → Op → ShardMaster → Option ShardMaster
unfolding leave_config latest append_config
leave_handle o op sm = elim (latest sm.configs) [
  | none ↦ none
  | some c ↦ append_config (leave_config o op (length sm.configs) c) sm
]

unfoldable pub move_handle : Op → ShardMaster → Option ShardMaster
unfolding move_config latest append_config
move_handle op sm = elim (latest sm.configs) [
  | none ↦ none
  | some c ↦ append_config (some (move_config op (length sm.configs) c)) sm
]

-- `UpdateConf`, with the orders that its loops meet; `none` where it panics.
unfoldable pub update_conf : Order → Op → ShardMaster → Option ShardMaster
unfolding join_handle leave_handle move_handle
update_conf o op sm =
    if op.type == "Join"
    then elim (join_handle o op sm) [
      | none ↦ none
      | some sm' ↦ some (record sm' { rec_join = insert op.gid true sm'.rec_join })
    ]
    else if op.type == "Leave"
    then elim (leave_handle o op sm) [
      | none ↦ none
      | some sm' ↦ some (record sm' { rec_leave = insert op.gid true sm'.rec_leave })
    ]
    else if op.type == "Move"
    then move_handle op sm
    else some sm

-- The loop of `Query` over the configs: the last one with the number, or the zero config.
unfoldable pub find_num : ℤ → Config → List Config → Config
find_num num found [] = found
find_num num found (c ∷ cs) = find_num num (if pos c.num == num then c else found) cs

-- The config that `Query` replies, once its operation is through; `none` where the index panics.
unfoldable pub query : ℤ → ShardMaster → Option Config
unfolding latest find_num
query num sm =
    if num == negsuc 0 || leb_ℤ (pos (length sm.configs)) num
    then latest sm.configs
    else some
        (find_num num (record { num = 0; shards = no_owners n_shards; groups = [] }) sm.configs)

-- How an operation ends: still in the loop of `ExecOp`, in a panic, or with the new state.
pub data Ended : Type 0 where
  waits panics : Ended
  returns : ShardMaster → Ended

-- The loop of `ExecOp` over the instances that the replica has missed: `n` of them, from `i`.
unfoldable pub catch_up : (ℤ → Op) → (ℤ → Order) → ℕ → ℤ → ShardMaster → Option ShardMaster
unfolding update_conf
catch_up log orders zero i sm = some sm
catch_up log orders (suc n) i sm = elim (update_conf (orders i) (log i) sm) [
  | none ↦ none
  | some sm' ↦ catch_up log orders n (i +ℤ pos 1) sm'
]

-- How many instances there are above `a` and up to `b`.
abbrev pub gap : ℤ → ℤ → ℕ
gap a b = pos_part b + neg_part a - (pos_part a + neg_part b)

abbrev pub same_op : Op → Op → Bool
same_op a b = a.type == b.type && (a.gid == b.gid && a.shard == b.shard)

-- One pass of the loop of `ExecOp`: the instance that it proposes in, and whether that instance was
-- decided before the wait ended.
pub record Pass : Type 0 where
  pub ins : ℤ
  pub is_decided : Bool

unfoldable pub caught_up : ℤ → Option ShardMaster → Ended
caught_up ins none = panics
caught_up ins (some sm) = returns (record sm { min_ins = ins })

-- `ExecOp`, with the passes that its loop makes
unfoldable pub exec_op : (ℤ → Op) → (ℤ → Order) → Op → List Pass → ShardMaster → Ended
unfolding catch_up caught_up
exec_op log orders args [] sm = waits
exec_op log orders args (p ∷ ps) sm =
    let rest = exec_op log orders args ps sm in
    if p.is_decided && same_op (log p.ins) args
    then caught_up p.ins (catch_up log orders (gap sm.min_ins p.ins) (sm.min_ins +ℤ pos 1) sm)
    else rest

-- The handlers `Join`, `Leave` and `Move`: the tests of JoinHit and LeaveHit there have no effect.
unfoldable pub join : (ℤ → Op) → (ℤ → Order) → ℤ → List String → List Pass → ShardMaster → Ended
unfolding exec_op
join log orders gid servers ps sm =
    exec_op log orders (record { type = "Join"; shard = pos 0; gid = gid; servers = servers }) ps sm

unfoldable pub leave : (ℤ → Op) → (ℤ → Order) → ℤ → List Pass → ShardMaster → Ended
unfolding exec_op
leave log orders gid ps sm =
    exec_op log orders (record { type = "Leave"; shard = pos 0; gid = gid; servers = [] }) ps sm

unfoldable pub move : (ℤ → Op) → (ℤ → Order) → ℤ → ℤ → List Pass → ShardMaster → Ended
unfolding exec_op
move log orders shard gid ps sm =
    exec_op log orders (record { type = "Move"; shard = shard; gid = gid; servers = [] }) ps sm

-- The whole handler `Query`: how it ends, and the config that it replies.
unfoldable pub query_handler :
    (ℤ → Op) → (ℤ → Order) → ℤ → List Pass → ShardMaster → Ended × Option Config
unfolding exec_op query
query_handler log orders num ps sm =
    let ended =
      exec_op log orders (record { type = "Query"; shard = pos 0; gid = pos 0; servers = [] }) ps
        sm in
    (ended, elim ended [ waits ↦ none | panics ↦ none | returns sm' ↦ query num sm' ])
