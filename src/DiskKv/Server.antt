-- ===== src/DiskKv/Server.antt =====
-- The server of src/diskv/server.go: its state, its handlers, which are empty, `tick`, and the
-- connections of `StartServer`. src/diskv/common.go has the types of src/shardkv/common.go.
use distributed_systems_engi.Base.{[], ℕ, ℤ, String, List, Bool, Str}
use distributed_systems_engi.Paxos.{Paxos}
use distributed_systems_engi.Paxos
use distributed_systems_engi.Host.{Host, opened, Event, run}
use distributed_systems_engi.Host
use distributed_systems_engi.ShardKv.{server_get, server_put_append}
use distributed_systems_engi.ShardKv.Server.{Request, gets, puts, Reply, get_reply, put_reply}
use distributed_systems_engi.DiskKv.{DisKv}

-- `Op`, which has no fields
pub data Op : Type 0 where
  op : Op

-- `DisKV`, less its mutex and its listener: `files` has its directory.
pub record Server : Type 0 where
  pub me : ℕ
  pub gid : ℤ
  pub files : DisKv
  pub host : Host
  pub px : Paxos Op

-- `StartServer`, up to its threads: a restart makes no difference.
abbrev pub start_server : ℤ → List String → ℕ → Str → Bool → Server
start_server gid servers me dir restart = record {
  me = me;
  gid = gid;
  files = record { dir = dir };
  host = opened;
  px = Paxos.make servers me;
}

-- The handlers `Get` and `PutAppend` leave the state and the reply as they are.
unfoldable pub handle : Request → Paxos Op → Paxos Op × Reply
unfolding server_get server_put_append
handle (gets key) px = (px, get_reply server_get)
handle (puts key value how) px = (px, put_reply server_put_append)

-- `tick`
unfoldable pub tick : Server → Server
tick kv = kv

-- `kill`
unfoldable pub kill : Server → Server
unfolding Host.kill
kill kv = record kv { host = Host.kill kv.host }

-- `Setunreliable`
unfoldable pub set_unreliable : Bool → Server → Server
unfolding Host.set_unreliable
set_unreliable what kv = record kv { host = Host.set_unreliable what kv.host }

-- The thread of `StartServer` that accepts connections, from no open connection, and the threads of these
unfoldable pub serve : List (Event Request) → Server → Server × List Reply
unfolding run handle
serve es kv =
    let (host, _, px, rs) = run (record { handle = handle }) es kv.host [] kv.px in
    (record kv { host = host; px = px }, rs)
