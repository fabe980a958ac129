-- ===== src/ShardKv.antt =====
-- src/shardkv/client.go, src/shardkv/common.go and the handlers of src/shardkv/server.go: a client of the
-- sharded key/value service, which asks the group that has the key's shard. What each pass of its loops
-- meets is a parameter. The client in src/diskv/client.go is the same code for other RPC names.
pub mod Owner
pub mod Server
mod Tests
use distributed_systems_engi.Base.{
  ℕ, zero, suc, ◌%◌, String, Bool, true, false, Option, none, some, List, [], ◌∷◌, ℤ, pos, Str,
  int_eq, lookup, get_elem?,
}
use distributed_systems_engi.ShardMaster.{Config, n_shards, no_owners}

pub data Err : Type 0 where
  empty : Err
  ok : Err
  no_key : Err
  wrong_group : Err

pub record GetReply : Type 0 where
  pub err : Err
  pub value : String

pub record Clerk : Type 0 where
  pub config : Config

-- `MakeClerk`
abbrev pub make_clerk : Clerk
make_clerk = record { config = record { num = 0; shards = no_owners n_shards; groups = [] } }

-- The handlers of src/shardkv/server.go leave the reply as the client's RPC made it.
unfoldable pub server_get : GetReply
server_get = record { err = empty; value = "" }

unfoldable pub server_put_append : Err
server_put_append = empty

unfoldable pub key2shard : Str → ℕ
key2shard [] = 0
key2shard (c ∷ key) = c % n_shards

-- The servers of the group that has the shard, if the configuration knows the group
unfoldable pub servers_for : ℕ → Config → Option (List String)
servers_for shard config = elim (get_elem? config.shards shard) [
  | none ↦ none
  | some gid ↦ lookup gid config.groups
]

-- What a pass of the loops meets: the reply of each server, `none` where the RPC fails, and the
-- configuration that the shard master replies after it.
pub record Pass (R : Type 0) : Type 0 where
  pub reply : String → Option R
  pub next_config : Config

-- How the loop over the servers goes on after a reply
pub data Verdict (A : Type 0) : Type 0 where
  return : A → Verdict A
  stop : Verdict A
  continue : Verdict A

unfoldable pub try_servers :
    {R : Type 0} {A : Type 0}
    → (Option R → Verdict A)
    → (String → Option R)
    → List String
    → Option A
try_servers judge reply [] = none
try_servers judge reply (srv ∷ servers) =
    let rest = try_servers judge reply servers in
    elim (judge (reply srv)) [ return a ↦ some a | stop ↦ none | continue ↦ rest ]

-- The loop of `Get` and of `PutAppend` over the passes; `none` where it is still in the loop after
-- them.
unfoldable pub ask :
    {R : Type 0} {A : Type 0}
    → (Option R → Verdict A)
    → Str
    → List (Pass R)
    → Clerk
    → Option (Clerk × A)
unfolding servers_for try_servers key2shard
ask judge key [] ck = none
ask judge key (p ∷ ps) ck =
    let rest = ask judge key ps (record { config = p.next_config }) in
    elim (servers_for (key2shard key) ck.config) [
      | none ↦ rest
      | some servers ↦ elim (try_servers judge p.reply servers) [
        | none ↦ rest
        | some a ↦ some (ck, a)
      ]
    ]

-- What `Get` makes of a reply
unfoldable pub get_verdict : Option GetReply → Verdict String
get_verdict none = continue
get_verdict (some r) = elim r.err [
  | empty ↦ continue
  | ok ↦ return r.value
  | no_key ↦ return r.value
  | wrong_group ↦ stop
]

unfoldable pub get : Str → List (Pass GetReply) → Clerk → Option (Clerk × String)
unfolding ask get_verdict
get key ps ck = ask get_verdict key ps ck

-- What `PutAppend` makes of a reply
unfoldable pub put_append_verdict : Option Err → Verdict Err
put_append_verdict none = continue
put_append_verdict (some ok) = return ok
put_append_verdict (some empty) = continue
put_append_verdict (some no_key) = continue
put_append_verdict (some wrong_group) = stop

unfoldable pub put_append : Str → List (Pass Err) → Clerk → Option Clerk
unfolding ask put_append_verdict
put_append key ps ck = elim (ask put_append_verdict key ps ck) [ none ↦ none | some r ↦ some r.0 ]
