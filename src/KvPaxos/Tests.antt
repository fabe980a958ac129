-- ===== src/KvPaxos/Tests.antt =====
-- A run of a replica, and the theorems at concrete inputs.
use mathlib.Core.Path.{subst}
use distributed_systems_engi.Base.{
  Bool, All, false, ℕ, sym, Option, none, ◌&&◌, ◌==◌, leb, ◌≤◌, is_some, String, ◌≡◌, refl, true,
  some, List, [], ◌∷◌, arith, pos, if◌then◌else◌, ltb_ℤ, lookup, insert, ℤ, string_eq,
}
use distributed_systems_engi.KvPaxos.{
  Op, KvPaxos, start_server, Pass, exec_op, is_hit, update_record, update_data, apply, catch_up,
  wait_for,
}
use distributed_systems_engi.KvPaxos.Record.{serve, first_requests, apply_all, serve-exactly_once}
use distributed_systems_engi.KvPaxos.Clerk.{
  Clerk, make_clerk, Reply, get, put_append, clerk-reaches,
}
use distributed_systems_engi.KvPaxos.Delivery.{
  Change, sent, Delivered, done, fresh, copy, clients-once, of_client,
}
use distributed_systems_engi.KvPaxos.Replica.{
  ops_from, log_to, IsReplica, Executed, exec_op-IsReplica, exec_op-executes, IsLearnt,
}

abbrev op : String → String → ℤ → Op
op type value req = record {
  type = type;
  key = "k";
  value = value;
  client_id = pos 4;
  req_num = req;
}

-- Request 1 stands in the log twice.
abbrev ops : List Op
ops = op "Put" "x" (pos 0) ∷ op "Append" "y" (pos 1) ∷ op "Append" "y" (pos 1) ∷ []

served : (serve ops start_server).store ≡ ("k", "xy") ∷ []
unfolding serve update_data update_record apply is_hit lookup insert
served = refl

serve-exactly_once_example : (serve ops start_server).store ≡ apply_all (first_requests [] ops) []
serve-exactly_once_example = serve-exactly_once ops

-- Instance 0 was decided with another replica's request, instance 1 with ours.
abbrev log : ℤ → Op
log i = if ltb_ℤ i (pos 1) then op "Put" "x" (pos 0) else op "Append" "y" (pos 1)

-- A missed instance is seen decided at the second look.
abbrev looks : ℤ → List Bool
looks i = false ∷ true ∷ []

abbrev passes : List Pass
passes =
    record { ins = pos 0; is_decided = true; looks = looks }
    ∷ record { ins = pos 1; is_decided = true; looks = looks }
    ∷ []

abbrev executed : KvPaxos
executed = record {
  store = ("k", "xy") ∷ [];
  rec_op = (pos 4, (pos 0, true) ∷ (pos 1, true) ∷ []) ∷ [];
  min_ins = pos 1;
}

executes : exec_op log (op "Append" "y" (pos 1)) passes start_server ≡ some executed
unfolding exec_op catch_up wait_for update_data update_record apply is_hit lookup insert
executes = refl

start-IsReplica : IsReplica log start_server
unfolding log_to ops_from serve
start-IsReplica = (omega arith, refl)

exec_op-IsReplica_example : Executed log (op "Append" "y" (pos 1)) start_server executed
exec_op-IsReplica_example =
    exec_op-IsReplica log (op "Append" "y" (pos 1)) passes start_server executed start-IsReplica
      (omega arith, (omega arith, tt)) executes

passes-IsLearnt : All IsLearnt passes
unfolding wait_for
passes-IsLearnt = (λ i le. refl, (λ i le. refl, tt))

exec_op-executes_example :
    (kv' : KvPaxos) × (exec_op log (op "Append" "y" (pos 1)) passes start_server ≡ some kv')
    × Executed log (op "Append" "y" (pos 1)) start_server kv'
exec_op-executes_example =
    exec_op-executes log (op "Append" "y" (pos 1))
      (record { ins = pos 0; is_decided = true; looks = looks } ∷ []) []
      (record { ins = pos 1; is_decided = true; looks = looks }) start_server start-IsReplica
      (omega arith, (omega arith, tt)) passes-IsLearnt refl refl

-- Another replica goes through both instances in one pass.
executes_at_once :
    exec_op log
      (op "Append" "y" (pos 1))
      (record { ins = pos 1; is_decided = true; looks = looks } ∷ [])
      start_server
    ≡ some executed
unfolding exec_op catch_up wait_for update_data update_record apply is_hit lookup insert
executes_at_once = refl

abbrev clerk : Clerk
clerk = make_clerk ("a" ∷ "b" ∷ []) (pos 4)

-- Server b replies from call number 3 on, server a never.
abbrev replies {ℓ} : {Args : Type ℓ} → Args → ℕ → String → Option Reply
replies args i srv =
    if leb 3 i && srv == "b" then some (record { err = "OK"; value = "v" }) else none

b-replies {ℓ} :
    {Args : Type ℓ} (args : Args) (i : ℕ)
    → 3 ≤ i
    → (r : Reply) × (replies args i "b" ≡ some r) × (r.err ≡ "OK")
b-replies args i h = (record { err = "OK"; value = "v" }, ground (arith, h), refl)

clerk-reaches_example :
    (is_some (get "k" replies 7 clerk) ≡ true)
    × (is_some (put_append "k" "x" "Put" replies 7 clerk) ≡ true)
clerk-reaches_example =
    clerk-reaches "k" "x" "Put" replies replies clerk 1 3 "b" refl b-replies b-replies

abbrev changes : List Change
changes =
    record { key = "k"; value = "x"; op = "Put" }
    ∷ record { key = "k"; value = "y"; op = "Append" }
    ∷ []

abbrev first_op : Op
first_op = op "Put" "x" (pos 1)

abbrev second_op : Op
second_op = op "Append" "y" (pos 2)

-- An operation of another client
abbrev other_op : Op
other_op = record first_op { client_id = pos 9 }

-- The first operation arrives again before and after the second, and another client's in between.
abbrev arrived : List Op
arrived = first_op ∷ first_op ∷ other_op ∷ second_op ∷ first_op ∷ []

changes-sent : sent changes clerk ≡ first_op ∷ second_op ∷ []
unfolding sent
changes-sent = refl

delivers : Delivered [] (sent changes clerk) (of_client (pos 4) arrived)
unfolding of_client
delivers =
    subst (λ ops. Delivered [] ops (of_client (pos 4) arrived)) (sym changes-sent)
      (fresh first_op (copy first_op 0 refl (fresh second_op (copy first_op 1 refl done))))

clients-once_example :
    ((serve arrived start_server).store ≡ apply_all (first_requests [] arrived) [])
    × (of_client (pos 4) (first_requests [] arrived) ≡ sent changes clerk)
clients-once_example = clients-once changes ("a" ∷ "b" ∷ []) (pos 4) arrived delivers
