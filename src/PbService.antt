-- ===== src/PbService.antt =====
-- src/pbservice/server.go and src/pbservice/common.go: a server of the primary/backup key/value service. An
-- RPC to the backup runs the backup's handler, and the network says what becomes of it.
pub mod Clerk
pub mod Forwarding
mod Returning
pub mod Retrying
pub mod Transfer
pub mod Stale
mod Tests
use Prim.Native.String.{◌++◌}
use mathlib.Core.Option
use distributed_systems_engi.Base.{
  ℕ, String, Bool, true, false, not, ◌&&◌, Option, none, some, List, [], ◌∷◌, ℤ, ltb, ◌==◌, int_eq,
  string_eq, Map, or_zero, is_some, lookup, insert, if◌then◌else◌,
}
use distributed_systems_engi.ViewService.{View, no_view}

-- The texts of `Err`; a reply that was not filled in has the empty one.
pub data Err : Type 0 where
  empty ok no_key wrong_server view_server_down already_op_id : Err

abbrev pub is_wrong_server : Err → Bool
is_wrong_server wrong_server = true
is_wrong_server _ = false

pub record PbServer : Type 0 where
  pub me : String
  pub view : View
  pub store : Map String String  -- the field `Data`
  pub op_id : Map ℤ Bool

-- The state that `StartServer` makes.
abbrev pub start_server : String → PbServer
start_server me = record { me = me; view = no_view; store = []; op_id = [] }

unfoldable pub judge_view_changed : ℕ → PbServer → Bool
judge_view_changed viewnum pb = ltb viewnum pb.view.viewnum

pub record ForwardArgs : Type 0 where
  pub key : String
  pub value : String
  pub op_id : ℤ
  pub op : String
  pub viewnum : ℕ

unfoldable pub forward : ForwardArgs → PbServer → PbServer × Err
unfolding judge_view_changed
forward args pb =
    if not (judge_view_changed args.viewnum pb)
    then (
      record pb {
        store = if args.op == "Put" then insert args.key args.value pb.store else pb.store;
        op_id = insert args.op_id true pb.op_id;
      },
      ok,
    )
    else (pb, wrong_server)

-- What becomes of an RPC: the server does not run it, runs it without the reply getting through, or
-- runs it and replies. The caller sees a failed call in the first two cases.
pub data Outcome : Type 0 where
  lost no_reply replied : Outcome

-- The primary, and the server that its view names as backup.
pub record Pair : Type 0 where
  pub primary : PbServer
  pub backup : PbServer

-- call(pb.View.Backup, "PbServer.Forward", ...): the pair afterwards, and the reply of a call that
-- succeeds.
unfoldable pub call_forward : ForwardArgs → Outcome → Pair → Pair × Option Err
unfolding forward
call_forward args lost s = (s, none)
call_forward args no_reply s = (record s { backup = (forward args s.backup).0 }, none)
call_forward args replied s =
    let (b, e) = forward args s.backup in (record s { backup = b }, some e)

pub record GetArgs : Type 0 where
  pub key : String
  pub op_id : ℤ

abbrev pub value_of : String → PbServer → String
value_of key pb = or_zero "" (lookup key pb.store)

abbrev pub has_op : ℤ → PbServer → Bool
has_op op pb = is_some (lookup op pb.op_id)

abbrev pub record_op : ℤ → PbServer → PbServer
record_op op pb = record pb { op_id = insert op true pb.op_id }

-- The end of `Get`, after the call to the backup
finish_get : GetArgs → Pair × Option Err → Pair × Err × String
finish_get args (s, none) = (s, wrong_server, "")
finish_get args (s, some e) =
    if is_wrong_server e
    then (s, wrong_server, "")
    else (record s { primary = record_op args.op_id s.primary }, ok, value_of args.key s.primary)

-- `Get` at the primary: its reply is the error and the value.
unfoldable pub get : GetArgs → Outcome → Pair → Pair × Err × String
unfolding finish_get
get args o s =
    let p = s.primary in
    if not (p.view.primary == p.me)
    then (s, wrong_server, "")
    else if has_op args.op_id p
    then (s, already_op_id, "")
    else if not (is_some (lookup args.key p.store))
    then (s, no_key, "")
    else if p.view.backup == ""
    then finish_get args (s, some empty)
    else finish_get args (
        call_forward
          (record {
            key = "";
            value = "";
            op_id = args.op_id;
            op = "Get";
            viewnum = p.view.viewnum;
          })
          o s)

pub record PutAppendArgs : Type 0 where
  pub key : String
  pub value : String
  pub op : String
  pub op_id : ℤ

-- The value that `PutAppend` forwards, and with which it ends: an append is made here.
abbrev pub new_value : PutAppendArgs → PbServer → String
new_value args p = if args.op == "Put" then args.value else value_of args.key p ++ args.value

abbrev pub forward_args : PutAppendArgs → PbServer → ForwardArgs
forward_args args p = record {
  key = args.key;
  value = new_value args p;
  op_id = args.op_id;
  op = "Put";
  viewnum = p.view.viewnum;
}

-- One pass of the loop of `PutAppend`: what other handlers do while the mutex is free, and what
-- becomes of the call.
pub record Pass : Type 0 where
  pub meanwhile : Pair → Pair
  pub outcome : Outcome

-- The end of `PutAppend`, after the loop
finish_put : PutAppendArgs → Err → Pair → Pair × Err
finish_put args e s = if is_wrong_server e then (s, wrong_server) else (
  record s {
    primary =
        record_op args.op_id
          (record s.primary { store = insert args.key (new_value args s.primary) s.primary.store });
  },
  ok,
)

-- A pass of the loop of `PutAppend` once the mutex is held again, with what follows a failed call
unfoldable pub put_pass :
    PutAppendArgs → Outcome → (Pair → Option (Pair × Err)) → Pair → Option (Pair × Err)
unfolding finish_put
put_pass args o again s =
    let (s', reply) = call_forward (forward_args args s.primary) o s in
    if has_op args.op_id s.primary
    then some (s, already_op_id)
    else if s.primary.view.backup == ""
    then some (finish_put args empty s)
    else elim reply [ none ↦ again s' | some e ↦ some (finish_put args e s') ]

-- The loop of `PutAppend`; `none` where it is still in the loop after these passes.
unfoldable pub put_loop : PutAppendArgs → List Pass → Pair → Option (Pair × Err)
put_loop args [] s = none
put_loop args (r ∷ rs) s = put_pass args r.outcome (put_loop args rs) (r.meanwhile s)

unfoldable pub put_append : PutAppendArgs → List Pass → Pair → Option (Pair × Err)
unfolding put_loop
put_append args rs s =
    if not (s.primary.view.primary == s.primary.me)
    then some (s, wrong_server)
    else put_loop args rs s

-- `UpdateData`, run by the server to which `TransDataToBackup` sends the data and the operations.
unfoldable pub update_data : PbServer → PbServer → PbServer
update_data sender b = record b { store = sender.store; op_id = sender.op_id }

-- `TransDataToBackup`: the receiver afterwards, and whether the call succeeded.
unfoldable pub trans_data : PbServer → Outcome → PbServer → PbServer × Bool
unfolding update_data
trans_data sender lost b = (b, false)
trans_data sender no_reply b = (update_data sender b, false)
trans_data sender replied b = (update_data sender b, true)

-- The loops of `tick` around `TransDataToBackup`; `none` where it is still in the loop.
unfoldable pub trans_loop : PbServer → List Outcome → PbServer → Option PbServer
unfolding trans_data
trans_loop sender [] b = none
trans_loop sender (o ∷ os) b =
    let (b', done) = trans_data sender o b in
    let again = trans_loop sender os b' in if done then some b' else again

-- `tick`, with the view in the reply to its ping, if there is one, the tries of its transfer, and
-- the server that the new view names as backup.
unfoldable pub tick : Option View → List Outcome → Pair → Option Pair
unfolding trans_loop
tick none os s = some s
tick (some v) os s =
    let p = s.primary in
    let moved =
      Option.map (λ b. record { primary = record p { view = v }; backup = b })
        (trans_loop p os s.backup) in
    let stayed = some (record s { primary = record p { view = v } }) in
    if ltb p.view.viewnum v.viewnum
    then (if v.primary == p.view.primary && p.view.primary == p.me
        then moved
        else if v.primary == p.view.backup && p.view.backup == p.me
        then (if not (v.backup == "") then moved else stayed)
        else stayed)
    else some s
