-- ===== src/PbService/Tests.antt =====
-- Runs of the primary and its backup, and the theorems at concrete inputs.
use distributed_systems_engi.Base.{
  String, ◌≡◌, refl, ◌≢◌, inl, true, some, List, [], ◌∷◌, arith, All, string_eq, ne_of_test, pos,
  lookup, insert,
}
use distributed_systems_engi.ViewService.{View}
use distributed_systems_engi.PbService.{
  Err, ok, wrong_server, GetArgs, get, PbServer, start_server, Outcome, lost, no_reply, replied,
  Pair, PutAppendArgs, Pass, forward, call_forward, put_pass, put_loop, put_append, trans_data,
  trans_loop, update_data, tick,
}
use distributed_systems_engi.PbService.Retrying.{Call, tries, tries-once}
use distributed_systems_engi.PbService.Forwarding.{Applied, IsCalm, Served, put_append-Served}
use distributed_systems_engi.PbService.Returning.{put_append-serves}
use distributed_systems_engi.PbService.Stale.{stale-refused}
use distributed_systems_engi.PbService.Transfer.{tick-replaces}

abbrev view : View
view = record { viewnum = 2; primary = "a"; backup = "b" }

abbrev server : String → PbServer
server me = record (start_server me) { view = view; store = ("k", "x") ∷ [] }

abbrev pair : Pair
pair = record { primary = server "a"; backup = server "b" }

abbrev appends : PutAppendArgs
appends = record { key = "k"; value = "y"; op = "Append"; op_id = pos 7 }

abbrev pass : Outcome → Pass
pass o = record { meanwhile = λ s. s; outcome = o }

-- The first call's reply is lost, after the backup has run the handler.
abbrev passes : List Pass
passes = pass no_reply ∷ pass lost ∷ pass replied ∷ []

abbrev appended : String → PbServer
appended me = record (server me) {
  store = insert "k" "xy" (server me).store;
  op_id = (pos 7, true) ∷ [];
}

abbrev after : Pair
after = record {
  primary = appended "a";
  backup = record (appended "b") { store = ("k", "xy") ∷ [] };
}

appends_once : put_append appends passes pair ≡ some (after, ok)
unfolding put_append put_loop put_pass call_forward forward lookup insert
appends_once = refl

IsCalm-passes : All IsCalm passes
IsCalm-passes = ((λ s. refl), ((λ s. refl), ((λ s. refl), tt)))

put_append-Served_example : Served appends (server "a") after ok
unfolding lookup
put_append-Served_example =
    put_append-Served appends passes pair after ok IsCalm-passes (λ k. refl) refl
      (ne_of_test _ _ refl) refl appends_once

-- The client tries twice more.
abbrev more_tries : List Call
more_tries = (pass replied, []) ∷ (pass lost, []) ∷ []

tries-once_example :
    (tries appends more_tries after ≡ some after) × Applied appends (server "a") after
unfolding lookup
tries-once_example =
    tries-once appends passes more_tries pair after IsCalm-passes ((λ s. refl), ((λ s. refl), tt))
      (λ k. refl) refl (ne_of_test _ _ refl) refl appends_once

put_append-serves_example :
    (s' : Pair) × (e : Err) × (put_append appends passes pair ≡ some (s', e))
    × Served appends (server "a") s' e
unfolding lookup
put_append-serves_example =
    put_append-serves appends (pass no_reply ∷ pass lost ∷ []) [] (pass replied) pair refl
      IsCalm-passes (λ k. refl) refl (ne_of_test _ _ refl) refl

-- The view in which c is the backup of a.
abbrev new_view : View
new_view = record { viewnum = 3; primary = "a"; backup = "c" }

abbrev fresh_backup : Pair
fresh_backup = record { primary = appended "a"; backup = start_server "c" }

abbrev transferred : Pair
transferred = record {
  primary = record (appended "a") { view = new_view };
  backup = record (start_server "c") { store = ("k", "xy") ∷ []; op_id = (pos 7, true) ∷ [] };
}

transfers : tick (some new_view) (lost ∷ replied ∷ []) fresh_backup ≡ some transferred
unfolding tick trans_loop trans_data update_data insert
transfers = refl

tick-replaces_example :
    (transferred.primary ≡ record (appended "a") { view = new_view })
    × (transferred.backup.store ≡ (appended "a").store)
    × (transferred.backup.op_id ≡ (appended "a").op_id)
tick-replaces_example =
    tick-replaces new_view (lost ∷ replied ∷ []) fresh_backup transferred
      (omega arith, inl (refl, refl)) transfers

-- The view service has made b the primary of a later view, and a has not heard of it.
abbrev split_pair : Pair
split_pair = record pair {
  backup = record (server "b") { view = record { viewnum = 3; primary = "b"; backup = "" } };
}

refuses :
    put_append appends (pass no_reply ∷ pass replied ∷ []) split_pair
    ≡ some (split_pair, wrong_server)
unfolding put_append put_loop put_pass call_forward forward lookup
refuses = refl

stale-refused_example :
    let args : GetArgs = record { key = "k"; op_id = pos 8 } in
    ((get args replied split_pair).0 ≡ split_pair)
    × ((get args replied split_pair).1 ≢ ok)
    × (split_pair ≡ split_pair)
    × (wrong_server ≢ ok)
stale-refused_example =
    stale-refused split_pair (record { behind = refl; has_backup = refl })
      (record { key = "k"; op_id = pos 8 }) replied appends (pass no_reply ∷ pass replied ∷ [])
      split_pair wrong_server ((λ s. refl), ((λ s. refl), tt)) refuses
