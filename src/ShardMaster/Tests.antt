-- ===== src/ShardMaster/Tests.antt =====
-- Runs of the shard master, and the theorems at concrete inputs.
use distributed_systems_engi.Base.{
  upto, true, ◌≤◌, ◌+◌, ◌/◌, length, ◌≡◌, ◌≢◌, refl, inr, none, some, List, [], ◌∷◌, String, ℤ, pos,
  ◌==◌, int_eq, string_eq, if◌then◌else◌, All, lookup, insert, delete, set_at, ne_of_test,
}
use distributed_systems_engi.ShardMaster.{
  returns, exec_op, caught_up, catch_up, join_handle, Config, Op, ShardMaster, Order, start_server,
  no_owners, remove, n_shards, keep_on_join, keep_on_leave, keep_all, place, place_all, gids_of,
  share, join_config, leave_config, move_config, latest, append_config, move_handle, update_conf,
}
use distributed_systems_engi.ShardMaster.Handover.{
  Visits, IsOwned, HasOwner, join_config-IsOwned, leave_config-hands_off,
}
use distributed_systems_engi.ShardMaster.Balance.{load, leave_config-load-le}

-- The maps in the order of their entries
abbrev pub in_order : Order
in_order = record { shard_order = λ xs. xs; gid_order = λ shard gids. gids }

in_order-Visits : Visits in_order
in_order-Visits P shard gids h = h

abbrev pub join_op : ℤ → Op
join_op gid = record { type = "Join"; shard = pos 0; gid = gid; servers = "s" ∷ [] }

abbrev pub leave_op : ℤ → Op
leave_op gid = record { type = "Leave"; shard = pos 0; gid = gid; servers = [] }

abbrev pub groups : List ℤ → List (ℤ × List String)
groups [] = []
groups (g ∷ gs) = (g, "s" ∷ []) ∷ groups gs

abbrev pub one_group : Config
one_group = record {
  num = 2;
  shards = pos 1 ∷ pos 1 ∷ pos 1 ∷ pos 1 ∷ pos 1 ∷ pos 1 ∷ pos 1 ∷ pos 1 ∷ pos 1 ∷ pos 1 ∷ [];
  groups = groups (pos 1 ∷ []);
}

abbrev pub two_groups : Config
two_groups = record {
  num = 3;
  shards = pos 1 ∷ pos 1 ∷ pos 1 ∷ pos 1 ∷ pos 1 ∷ pos 2 ∷ pos 2 ∷ pos 2 ∷ pos 2 ∷ pos 2 ∷ [];
  groups = groups (pos 1 ∷ pos 2 ∷ []);
}

joined : join_config in_order (join_op (pos 2)) 2 one_group ≡ two_groups
unfolding join_config share keep_all keep_on_join place_all place gids_of set_at remove upto
    no_owners lookup insert
joined = refl

pub left :
    leave_config in_order (leave_op (pos 2)) 3 two_groups ≡ some (record one_group { num = 4 })
unfolding leave_config share keep_all keep_on_leave place_all place gids_of set_at remove upto
    no_owners lookup insert delete
left = refl

-- The last group cannot leave.
last_leaves : leave_config in_order (leave_op (pos 1)) 2 one_group ≡ none
unfolding leave_config delete
last_leaves = refl

pub one_group-IsOwned : IsOwned one_group
unfolding lookup
one_group-IsOwned =
    let own : HasOwner one_group.groups (pos 1) = inr refl in
    (own, (own, (own, (own, (own, (own, (own, (own, (own, (own, tt))))))))))

join_config-IsOwned_example :
    IsOwned (join_config in_order (join_op (pos 2)) 2 one_group)
    × ((g : ℤ)
        → lookup g (join_config in_order (join_op (pos 2)) 2 one_group).groups
          ≡ (if pos 2 == g then some ("s" ∷ []) else lookup g one_group.groups))
join_config-IsOwned_example =
    join_config-IsOwned in_order (join_op (pos 2)) 2 one_group in_order-Visits one_group-IsOwned

two_groups-IsOwned : IsOwned two_groups
unfolding lookup
two_groups-IsOwned =
    let one : HasOwner two_groups.groups (pos 1) = inr refl in
    let two : HasOwner two_groups.groups (pos 2) = inr refl in
    (one, (one, (one, (one, (one, (two, (two, (two, (two, (two, tt))))))))))

leave_config-hands_off_example :
    All (λ g. HasOwner (delete (pos 2) two_groups.groups) g × (g ≢ pos 2)) one_group.shards
    × (one_group.groups ≡ delete (pos 2) two_groups.groups)
leave_config-hands_off_example =
    leave_config-hands_off in_order (leave_op (pos 2)) 3 two_groups (record one_group { num = 4 })
      in_order-Visits two_groups-IsOwned (ne_of_test _ _ refl) left

abbrev move_op : Op
move_op = record { type = "Move"; shard = pos 3; gid = pos 2; servers = [] }

-- The state after joins of 1 and 2
abbrev after_joins : ShardMaster
after_joins = record start_server {
  configs =
      record { num = 0; shards = no_owners n_shards; groups = [] } ∷ one_group ∷ two_groups ∷ [];
}

abbrev after_move : ShardMaster
after_move = record after_joins {
  configs =
      record { num = 0; shards = no_owners n_shards; groups = [] }
      ∷ one_group
      ∷ two_groups
      ∷ move_config move_op 3 two_groups
      ∷ [];
}

moves : update_conf in_order move_op after_joins ≡ some after_move
unfolding update_conf move_handle latest append_config
moves = refl

-- Group 1 leaves: the shards that it had go to the groups in the order in which the map is visited,
-- and since the second loop does not count down `remain`, two groups can get one shard too many.
abbrev four_groups : Config
four_groups = record {
  num = 5;
  shards = pos 1 ∷ pos 1 ∷ pos 1 ∷ pos 2 ∷ pos 2 ∷ pos 2 ∷ pos 3 ∷ pos 3 ∷ pos 4 ∷ pos 4 ∷ [];
  groups = groups (pos 1 ∷ pos 2 ∷ pos 3 ∷ pos 4 ∷ []);
}

abbrev reversed : Order
reversed = record { shard_order = λ xs. xs; gid_order = λ shard gids. pos 4 ∷ pos 3 ∷ pos 2 ∷ [] }

unbalanced :
    leave_config in_order (leave_op (pos 1)) 5 four_groups
    ≡ some (record {
      num = 6;
      shards = pos 2 ∷ pos 3 ∷ pos 3 ∷ pos 2 ∷ pos 2 ∷ pos 2 ∷ pos 3 ∷ pos 3 ∷ pos 4 ∷ pos 4 ∷ [];
      groups = groups (pos 2 ∷ pos 3 ∷ pos 4 ∷ []);
    })
unfolding leave_config share keep_all keep_on_leave place_all place gids_of set_at remove upto
    no_owners lookup insert delete
unbalanced = refl

other_order :
    leave_config reversed (leave_op (pos 1)) 5 four_groups
    ≡ some (record {
      num = 6;
      shards = pos 4 ∷ pos 4 ∷ pos 3 ∷ pos 2 ∷ pos 2 ∷ pos 2 ∷ pos 3 ∷ pos 3 ∷ pos 4 ∷ pos 4 ∷ [];
      groups = groups (pos 2 ∷ pos 3 ∷ pos 4 ∷ []);
    })
unfolding leave_config share keep_all keep_on_leave place_all place gids_of set_at remove upto
    no_owners lookup insert delete
other_order = refl

-- Instance 0 was decided with the join of group 1.
abbrev pub joined_first : ShardMaster
joined_first = record start_server {
  configs = record { num = 0; shards = no_owners n_shards; groups = [] } ∷ one_group ∷ [];
  min_ins = pos 0;
  rec_join = (pos 1, true) ∷ [];
}

pub executes :
    exec_op
      (λ i. join_op (pos 1))
      (λ i. in_order)
      (join_op (pos 1))
      (record { ins = pos 0; is_decided = true } ∷ [])
      start_server
    ≡ returns joined_first
unfolding exec_op caught_up catch_up update_conf join_handle append_config latest join_config share
    keep_all keep_on_join place_all place gids_of set_at remove upto no_owners lookup insert
executes = refl

leave_config-load-le_example :
    load (pos 1) one_group.shards ≤ n_shards / length one_group.groups + 1
leave_config-load-le_example =
    leave_config-load-le in_order (leave_op (pos 2)) 3 two_groups (record one_group { num = 4 })
      (pos 1) (ne_of_test _ _ refl) left
