-- ===== src/LockService/Server.antt =====
-- The thread of `StartServer` of src/lockservice/server.go that accepts connections, with `kill` and the
-- flag `dying`. When it is set, and when a connection comes or `Accept` fails, is a parameter: a list of
-- events. A connection brings one request, as the client's `call` sends one.
use distributed_systems_engi.Base.{
  ◌||◌, ◌≢◌, ℕ, ◌+◌, String, Bool, true, false, ◌&&◌, not, Option, none, some, List, [], ◌∷◌, ◌==◌,
  string_eq, if◌then◌else◌,
}
use distributed_systems_engi.LockService.{LockServer, lock, unlock, is_locked}

pub data Request : Type 0 where
  asks_lock asks_unlock : String → Request

-- The call of a handler
unfoldable pub handle : Request → LockServer → LockServer × Bool
unfolding lock unlock
handle (asks_lock lockname) ls = lock lockname ls
handle (asks_unlock lockname) ls = unlock lockname ls

-- The flags of the server, with whether its listener is open, and the rest of its state
pub record Server : Type 0 where
  pub dead : Bool
  pub dying : Bool
  pub listening : Bool
  pub ls : LockServer

unfoldable pub kill : Server → Server
kill s = record s { dead = true; listening = false }

pub data Event : Type 0 where
  accepts : Request → Event
  accept_fails starts_dying killed : Event

-- A pass of the loop, or what else happens: the reply is none where the connection is closed at once, or
-- writes go to a DeafConn.
unfoldable pub step : Event → Server → Server × Option (Request × Bool)
unfolding kill handle
step (accepts q) s =
    let (ls', ok) = handle q s.ls in
    if not s.dead
    then (if s.dying
        then (record s { listening = false; ls = ls'; dead = true }, none)
        else (record s { ls = ls' }, some (q, ok)))
    else (s, none)
step accept_fails s = (if not s.dead then kill s else s, none)
step starts_dying s = (record s { dying = true }, none)
step killed s = (kill s, none)

-- The server over a list of events, and the replies that it sends
unfoldable pub run : List Event → Server → Server × List (Request × Bool)
unfolding step
run [] s = (s, [])
run (e ∷ es) s =
    let (s', r) = step e s in
    let (s'', rs) = run es s' in (s'', elim r [ none ↦ rs | some reply ↦ reply ∷ rs ])

-- Whether a reply grants a lock, and how many do
abbrev pub is_grant : String → Request × Bool → Bool
is_grant lockname (asks_lock other, ok) = other == lockname && ok
is_grant lockname (asks_unlock other, ok) = false

unfoldable pub grants : String → List (Request × Bool) → ℕ
grants lockname [] = 0
grants lockname (r ∷ rs) =
    let rest = grants lockname rs in if is_grant lockname r then rest + 1 else rest

-- How many grants of a lock a server can still send
abbrev pub open_grants : String → Server → ℕ
open_grants lockname s = if is_locked lockname s.ls || (s.dying || s.dead) then 0 else 1

sent : String → Option (Request × Bool) → ℕ
sent lockname none = 0
sent lockname (some r) = if is_grant lockname r then 1 else 0

-- No unlock of the lock is asked for.
abbrev pub IsKept : String → List Event → Type 0
IsKept lockname [] = Unit
IsKept lockname (accepts (asks_unlock other) ∷ es) = (other ≢ lockname) × IsKept lockname es
IsKept lockname (_ ∷ es) = IsKept lockname es
