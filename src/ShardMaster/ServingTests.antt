-- ===== src/ShardMaster/ServingTests.antt =====
-- A join to a replica of the log, after which every shard has a group.
use distributed_systems_engi.Base.{refl, true, [], ◌∷◌, pos, int_eq, arith, ne_of_test}
use distributed_systems_engi.ShardMaster.Replica.{IsReplica, Executed, exec_op-Executed}
use distributed_systems_engi.ShardMaster.{catch_up, start_server, latest}
use distributed_systems_engi.ShardMaster.Filling.{VisitsEach}
use distributed_systems_engi.ShardMaster.Serving.{LatestServes, IsPlain, exec_op-LatestServes}
use distributed_systems_engi.ShardMaster.Tests.{in_order, join_op, joined_first, executes}

in_order-VisitsEach : VisitsEach in_order
in_order-VisitsEach = record {
  shard_length = λ js. refl;
  shard_occurs = λ j js. refl;
  gid_only = λ P shard gs h. h;
  gid_all = λ P shard gs h. h;
}

join_op-IsPlain : IsPlain (join_op (pos 1))
join_op-IsPlain = record {
  no_move = refl;
  join_id = λ e. ne_of_test _ _ refl;
  leave_id = λ e. ne_of_test _ _ refl;
}

start-LatestServes : LatestServes start_server.configs
unfolding latest
start-LatestServes c e = ground arith

exec_op-LatestServes_example : LatestServes joined_first.configs
exec_op-LatestServes_example =
    exec_op-LatestServes (λ i. join_op (pos 1)) (λ i. in_order) (join_op (pos 1))
      (record { ins = pos 0; is_decided = true } ∷ []) start_server joined_first
      (λ i. in_order-VisitsEach) (λ i. join_op-IsPlain) start-LatestServes executes

start-IsReplica : IsReplica (λ i. join_op (pos 1)) (λ i. in_order) start_server
unfolding catch_up
start-IsReplica = (omega arith, refl)

exec_op-Executed_example :
    Executed (λ i. join_op (pos 1)) (λ i. in_order) (join_op (pos 1)) start_server joined_first
exec_op-Executed_example =
    exec_op-Executed (λ i. join_op (pos 1)) (λ i. in_order) (join_op (pos 1))
      (record { ins = pos 0; is_decided = true } ∷ []) start_server joined_first start-IsReplica
      (omega arith, tt) executes
