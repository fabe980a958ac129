-- ===== src/KvPaxos.antt =====
-- src/kvpaxos/server.go and src/kvpaxos/common.go: a replica of the key/value service, and its operations.
-- The log on which the Paxos peers agree is a parameter: the operation decided for each instance.
pub mod Record
pub mod Replica
pub mod Clerk
pub mod Delivery
mod Tests
use Prim.Native.String.{◌++◌}
use distributed_systems_engi.Base.{
  ℕ, zero, suc, ◌+◌, ◌-◌, String, Bool, true, false, not, ◌&&◌, ◌||◌, Option, none, some, List, [],
  ◌∷◌, ℤ, pos, negsuc, ◌+ℤ◌, pos_part, neg_part, ◌==◌, int_eq, string_eq, Map, or_zero, is_some,
  lookup, insert, delete, if◌then◌else◌, ltb_ℤ,
}

pub record Op : Type 0 where
  pub type : String
  pub key : String
  pub value : String
  pub client_id : ℤ
  pub req_num : ℤ

pub record KvPaxos : Type 0 where
  pub store : Map String String  -- the field `data`
  pub rec_op : Map ℤ (Map ℤ Bool)
  pub min_ins : ℤ

-- The state that `StartServer` makes.
abbrev pub start_server : KvPaxos
start_server = record { store = []; rec_op = []; min_ins = negsuc 0 }

unfoldable pub is_hit : ℤ → ℤ → KvPaxos → Bool
is_hit client req kv = elim (lookup client kv.rec_op) [
  | none ↦ false
  | some reqs ↦ is_some (lookup req reqs)
]

unfoldable pub update_record : Op → KvPaxos → KvPaxos
update_record op kv = record kv {
  rec_op =
      insert op.client_id (insert op.req_num true (or_zero [] (lookup op.client_id kv.rec_op)))
        kv.rec_op;
}

-- The change that an operation makes to the data.
unfoldable pub apply : Op → Map String String → Map String String
apply op m =
    if op.type == "Put"
    then insert op.key op.value m
    else if op.type == "Append"
    then insert op.key (or_zero "" (lookup op.key m) ++ op.value) m
    else m

unfoldable pub update_data : Op → KvPaxos → KvPaxos
update_data op kv =
    if not (is_hit op.client_id op.req_num kv)
    then update_record op (record kv { store = apply op kv.store })
    else kv

-- The inner loop of `ExecOp` that waits for a missed instance, over what `Status` says each time:
-- whether it ends in these
unfoldable pub wait_for : List Bool → Bool
wait_for [] = false
wait_for (is_decided ∷ later) = if is_decided then true else wait_for later

-- The loop of `ExecOp` over the instances that the replica has missed: `n` of them, from `i`. It is none
-- where the wait for one of them does not end.
unfoldable pub catch_up : (ℤ → Op) → (ℤ → List Bool) → ℕ → ℤ → KvPaxos → Option KvPaxos
unfolding update_data wait_for
catch_up log looks zero i kv = some kv
catch_up log looks (suc n) i kv =
    let rest = catch_up log looks n (i +ℤ pos 1) (update_data (log i) kv) in
    if wait_for (looks i) then rest else none

-- How many instances there are above `a` and up to `b`.
abbrev pub gap : ℤ → ℤ → ℕ
gap a b = pos_part b + neg_part a - (pos_part a + neg_part b)

abbrev pub same_request : Op → Op → Bool
same_request a b = a.type == b.type && (a.client_id == b.client_id && a.req_num == b.req_num)

-- One pass of the loop of `ExecOp`: the instance that it proposes in, and whether that instance was
-- decided before the wait ended.
pub record Pass : Type 0 where
  pub ins : ℤ
  pub is_decided : Bool
  pub looks : ℤ → List Bool

-- `ExecOp`, with the passes that its loop makes; `none` where it is still in the loop after them.
unfoldable pub exec_op : (ℤ → Op) → Op → List Pass → KvPaxos → Option KvPaxos
exec_op log args [] kv = none
exec_op log args (p ∷ ps) kv =
    let rest = exec_op log args ps kv in
    if p.is_decided && same_request (log p.ins) args
    then elim (catch_up log p.looks (gap kv.min_ins p.ins) (kv.min_ins +ℤ pos 1) kv) [
      | none ↦ none
      | some kv' ↦ some (record kv' { min_ins = p.ins })
    ]
    else rest

pub record GetArgs : Type 0 where
  pub key : String
  pub client_id : ℤ
  pub req_num : ℤ

pub record PutAppendArgs : Type 0 where
  pub key : String
  pub value : String
  pub op : String
  pub client_id : ℤ
  pub req_num : ℤ

-- The reply of a handler, which is always OK, with the value of `Get`.
abbrev pub value_of : String → KvPaxos → String
value_of key kv = or_zero "" (lookup key kv.store)

unfoldable pub get : (ℤ → Op) → GetArgs → List Pass → KvPaxos → Option (KvPaxos × String)
get log args ps kv =
    if is_hit args.client_id args.req_num kv
    then some (kv, value_of args.key kv)
    else elim (exec_op log
        (record {
          type = "Get";
          key = args.key;
          value = "";
          client_id = args.client_id;
          req_num = args.req_num;
        })
        ps kv) [ none ↦ none | some kv' ↦ some (kv', value_of args.key kv') ]

unfoldable pub put_append : (ℤ → Op) → PutAppendArgs → List Pass → KvPaxos → Option KvPaxos
put_append log args ps kv =
    if is_hit args.client_id args.req_num kv
    then some kv
    else exec_op log
        (record {
          type = args.op;
          key = args.key;
          value = args.value;
          client_id = args.client_id;
          req_num = args.req_num;
        })
        ps kv

-- `DeleteRecOp`, which the server does not call: forget the requests `0` to `n - 1` of a client.
delete_reqs : ℕ → Map ℤ Bool → Map ℤ Bool
delete_reqs zero reqs = reqs
delete_reqs (suc n) reqs = delete (pos n) (delete_reqs n reqs)

unfoldable pub delete_rec_op : ℤ → ℤ → KvPaxos → KvPaxos
unfolding delete_reqs
delete_rec_op client req kv = elim (lookup client kv.rec_op) [
  | none ↦ kv
  | some reqs ↦ record kv { rec_op = insert client (delete_reqs (pos_part req) reqs) kv.rec_op }
]
