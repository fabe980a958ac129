-- ===== src/DiskKv/Clerk.antt =====
-- src/diskv/client.go, which is the client of src/shardkv/client.go with other names of its RPCs: what a
-- call meets is a parameter there, so that the same functions describe it.
use distributed_systems_engi.Base.{Option, String, List, Str, ℕ}
use distributed_systems_engi.ShardKv.{Clerk, Pass, Err, GetReply}
use distributed_systems_engi.ShardKv

-- `MakeClerk`
abbrev pub make_clerk : Clerk
make_clerk = ShardKv.make_clerk

-- `key2shard`
unfoldable pub key2shard : Str → ℕ
unfolding ShardKv.key2shard
key2shard key = ShardKv.key2shard key

-- `Get`
unfoldable pub get : Str → List (Pass GetReply) → Clerk → Option (Clerk × String)
unfolding ShardKv.get
get key ps ck = ShardKv.get key ps ck

-- `PutAppend`
unfoldable pub put_append : Str → List (Pass Err) → Clerk → Option Clerk
unfolding ShardKv.put_append
put_append key ps ck = ShardKv.put_append key ps ck
