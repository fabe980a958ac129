-- ===== src/ShardKv/Server.antt =====
-- The server of src/shardkv/server.go: its state, its handlers, which are empty, `tick`, and the
-- connections of `StartServer`. The client of the shard master and the Paxos peer are those of
-- src/shardmaster and src/paxos.
use distributed_systems_engi.Base.{ℕ, ℤ, ◌≡◌, refl, ◌∙◌, String, Str, List, [], ◌∷◌, Bool, All}
use distributed_systems_engi.Paxos.{Paxos}
use distributed_systems_engi.Paxos
use distributed_systems_engi.Host.{
  Host, opened, Event, Service, run, handle_all, Part, empty, keep, drop,
}
use distributed_systems_engi.Host.Faults.{run-served}
use distributed_systems_engi.Host
use distributed_systems_engi.ShardKv.{Err, GetReply, server_get, server_put_append}

-- `Op`, which has no fields
pub data Op : Type 0 where
  op : Op

-- `ShardKV`, less its mutex and its listener
pub record ShardKv : Type 0 where
  pub me : ℕ
  pub gid : ℤ
  pub host : Host
  pub px : Paxos Op

-- `StartServer`, up to its threads
abbrev pub start_server : ℤ → List String → ℕ → ShardKv
start_server gid servers me = record {
  me = me;
  gid = gid;
  host = opened;
  px = Paxos.make servers me;
}

-- The calls that a client makes
pub data Request : Type 0 where
  gets : Str → Request
  puts : Str → String → String → Request

pub data Reply : Type 0 where
  get_reply : GetReply → Reply
  put_reply : Err → Reply

-- The handlers leave the state as it is.
unfoldable pub handle : Request → Paxos Op → Paxos Op × Reply
unfolding server_get server_put_append
handle (gets key) px = (px, get_reply server_get)
handle (puts key value how) px = (px, put_reply server_put_append)

-- `tick`
unfoldable pub tick : ShardKv → ShardKv
tick kv = kv

-- `kill`
unfoldable pub kill : ShardKv → ShardKv
unfolding Host.kill
kill kv = record kv { host = Host.kill kv.host }

-- `Setunreliable`
unfoldable pub set_unreliable : Bool → ShardKv → ShardKv
unfolding Host.set_unreliable
set_unreliable what kv = record kv { host = Host.set_unreliable what kv.host }

-- The thread of `StartServer` that accepts connections, from no open connection, and the threads of these
unfoldable pub serve : List (Event Request) → ShardKv → ShardKv × List Reply
unfolding run handle
serve es kv =
    let (host, _, px, rs) = run (record { handle = handle }) es kv.host [] kv.px in
    (record kv { host = host; px = px }, rs)

-- A reply without an error code and without a value
abbrev pub IsEmpty : Reply → Type 0
IsEmpty (get_reply r) = r ≡ server_get
IsEmpty (put_reply e) = e ≡ server_put_append

handle_all-IsEmpty :
    (qs : List Request) (px : Paxos Op)
    → let (px', rs) = handle_all (record { handle = handle }) qs px in (px' ≡ px) × All IsEmpty rs
unfolding handle_all handle
handle_all-IsEmpty [] px = (refl, tt)
handle_all-IsEmpty (gets key ∷ qs) px =
    let (same, rest) = handle_all-IsEmpty qs px in (same, (refl, rest))
handle_all-IsEmpty (puts key value how ∷ qs) px =
    let (same, rest) = handle_all-IsEmpty qs px in (same, (refl, rest))

All-Part : {A : Type 0} (P : A → Type 0) {xs ys : List A} → Part xs ys → All P ys → All P xs
All-Part P empty h = tt
All-Part P (keep p) h = (h.0, All-Part P p h.1)
All-Part P (drop p) h = All-Part P p h.1

-- Whatever requests reach a server, and whatever faults there are, its Paxos peer stays as it was, and
-- each reply has neither an error code nor a value.
pub serve-IsEmpty :
    (es : List (Event Request)) (kv : ShardKv)
    → let (kv', rs) = serve es kv in (kv'.px ≡ kv.px) × All IsEmpty rs
unfolding serve
serve-IsEmpty es kv =
    let h = run-served (record { handle = handle }) es kv.host [] kv.px in
    let (same, empty') = handle_all-IsEmpty h.qs kv.px in
    (h.state ∙ same, All-Part IsEmpty h.replies empty')
