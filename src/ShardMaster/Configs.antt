-- ===== src/ShardMaster/Configs.antt =====
-- The configs of src/shardmaster/server.go: what a join, a leave and a move make of the latest one. A
-- group id is an int64, 0 for no group. The order in which Go's `range` visits a map is a parameter.
use distributed_systems_engi.Base.{
  ℕ, zero, suc, ◌+◌, ◌-◌, ◌/◌, ◌%◌, String, Bool, not, ◌&&◌, ◌||◌, Option, none, some, List, [],
  ◌∷◌, ℤ, pos, ltb_ℤ, ltb, eqb, ◌==◌, int_eq, nat_eq, string_eq, Map, or_zero, lookup, insert,
  delete, upto, if◌then◌else◌, length, set_at,
}

-- `NShards`
abbrev pub n_shards : ℕ
n_shards = 10

pub record Config : Type 0 where
  pub num : ℕ
  pub shards : List ℤ
  pub groups : Map ℤ (List String)

pub record Op : Type 0 where
  pub type : String
  pub shard : ℤ
  pub gid : ℤ
  pub servers : List String

-- The array of `n` group ids as Go makes it
unfoldable pub no_owners : ℕ → List ℤ
no_owners zero = []
no_owners (suc n) = pos 0 ∷ no_owners n

-- The local variables of `JoinHandle` and `LeaveHandle`: newConfig.Shards, the keys of `allShards`,
-- `counter` and `remain`.
pub record Tally : Type 0 where
  pub shards : List ℤ
  pub all_shards : List ℕ
  pub counter : Map ℤ ℕ
  pub remain : ℕ

abbrev pub count : ℤ → Tally → ℕ
count gid t = or_zero 0 (lookup gid t.counter)

abbrev pub bump : ℤ → Tally → Tally
bump gid t = record t { counter = insert gid (suc (count gid t)) t.counter }

unfoldable pub remove : ℕ → List ℕ → List ℕ
remove i [] = []
remove i (j ∷ js) = let rest = remove i js in if i == j then rest else j ∷ rest

-- newConfig.Shards[i] = gid, and delete(allShards, i)
abbrev pub assign : ℕ → ℤ → Tally → Tally
assign i gid t = record t { shards = set_at i gid t.shards; all_shards = remove i t.all_shards }

abbrev pub is_new : ℤ → Bool
is_new gid = ltb_ℤ (pos 0) gid

-- One pass of the first loop of `JoinHandle`, at shard `i`, which `old` has
unfoldable pub keep_on_join : ℤ → ℕ → ℕ → ℤ → Tally → Tally
keep_on_join gid aver i old t =
    if is_new old && ltb (count old t) aver
    then assign i old (bump old t)
    else if is_new old && (eqb (count old t) aver && ltb 0 t.remain)
    then assign i old (bump old (record t { remain = t.remain - 1 }))
    else if old == pos 0
    then assign i gid t
    else t

-- One pass of the first loop of `LeaveHandle`
unfoldable pub keep_on_leave : ℤ → ℕ → ℕ → ℤ → Tally → Tally
keep_on_leave gid aver i old t =
    if is_new old && (not (old == gid) && ltb (count old t) aver)
    then assign i old (bump old t)
    else if is_new old && (not (old == gid) && (eqb (count old t) aver && ltb 0 t.remain))
    then assign i old (bump old (record t { remain = t.remain - 1 }))
    else if old == pos 0
    then assign i (pos 0) t
    else t

-- The first loop, over the shards from `i` on
unfoldable pub keep_all : (ℕ → ℤ → Tally → Tally) → ℕ → List ℤ → Tally → Tally
keep_all keep i [] t = t
keep_all keep i (old ∷ olds) t = keep_all keep (suc i) olds (keep i old t)

-- The inner loop of the second loop: the first group, in the order given, that can take the shard
unfoldable pub place : ℕ → ℕ → List ℤ → Tally → Tally
place aver shard [] t = t
place aver shard (gid ∷ gids) t =
    let rest = place aver shard gids t in
    if ltb (count gid t) aver || (eqb (count gid t) aver && ltb 0 t.remain)
    then assign shard gid (bump gid t)
    else rest

-- The orders in which the second loop ranges over `allShards`, and over the groups for each shard.
pub record Order : Type 0 where
  pub shard_order : List ℕ → List ℕ
  pub gid_order : ℕ → List ℤ → List ℤ

-- The second loop, over the shards that are left
unfoldable pub place_all : Order → ℕ → List ℤ → List ℕ → Tally → Tally
unfolding place
place_all o aver gids [] t = t
place_all o aver gids (shard ∷ shards) t =
    place_all o aver gids shards (place aver shard (o.gid_order shard gids) t)

unfoldable pub gids_of : Map ℤ (List String) → List ℤ
gids_of [] = []
gids_of ((gid, servers) ∷ m) = gid ∷ gids_of m

-- The state before the first loop, for this many groups
abbrev pub start_tally : ℕ → Tally
start_tally groups = record {
  shards = no_owners n_shards;
  all_shards = upto n_shards 0;
  counter = [];
  remain = n_shards % groups;
}

-- Both loops, with what the first does at a shard
unfoldable pub share : Order → (ℕ → ℕ → ℤ → Tally → Tally) → List ℤ → Map ℤ (List String) → List ℤ
unfolding keep_all place_all
share o keep old groups =
    let aver = n_shards / length groups in
    let kept = keep_all (keep aver) 0 old (start_tally (length groups)) in
    (place_all o aver (gids_of groups) (o.shard_order kept.all_shards) kept).shards

-- `newConfig` of `JoinHandle`
unfoldable pub join_config : Order → Op → ℕ → Config → Config
unfolding share
join_config o op conf_num latest =
    let groups = insert op.gid op.servers latest.groups in
    record {
      num = conf_num + 1;
      shards = share o (keep_on_join op.gid) latest.shards groups;
      groups = groups;
    }

-- `newConfig` of `LeaveHandle`; `none` where it panics, dividing by the number of groups that stay.
unfoldable pub leave_config : Order → Op → ℕ → Config → Option Config
unfolding share
leave_config o op conf_num latest =
    let groups = delete op.gid latest.groups in
    if eqb (length groups) 0
    then none
    else some (record {
      num = conf_num + 1;
      shards = share o (keep_on_leave op.gid) latest.shards groups;
      groups = groups;
    })

-- The loop of `MoveHandle` over the shards from `i` on
unfoldable pub move_shard : ℤ → ℤ → ℕ → List ℤ → List ℤ
move_shard shard gid i [] = []
move_shard shard gid i (old ∷ olds) =
    (if not (pos i == shard) then old else gid) ∷ move_shard shard gid (suc i) olds

-- `newConfig` of `MoveHandle`
unfoldable pub move_config : Op → ℕ → Config → Config
unfolding move_shard
move_config op conf_num latest = record {
  num = conf_num + 1;
  shards = move_shard op.shard op.gid 0 latest.shards;
  groups = latest.groups;
}
