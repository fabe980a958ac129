-- ===== src/LockService.antt =====
-- src/lockservice/server.go and src/lockservice/client.go: the lock server, and a client's call of
-- the primary.
pub mod Server
mod Tests
mod ServerTests
use distributed_systems_engi.Base.{
  String, ◌≡◌, refl, Bool, true, false, ◌||◌, Option, none, some, List, [], ◌∷◌, ◌==◌, ==-self,
  string_eq, Map, or_zero, lookup, insert, lookup-insert, if◌then◌else◌, Bool-cases, arith,
}

pub record LockServer : Type 0 where
  pub am_primary : Bool
  pub backup : String
  pub locks : Map String Bool

-- The state that `StartServer` makes.
abbrev pub start_server : String → Bool → LockServer
start_server backup am_primary = record { am_primary = am_primary; backup = backup; locks = [] }

-- The handler `Lock`, with `OK` of its reply
unfoldable pub lock : String → LockServer → LockServer × Bool
lock lockname ls =
    if or_zero false (lookup lockname ls.locks)
    then (ls, false)
    else (record ls { locks = insert lockname true ls.locks }, true)

-- The handler `Unlock` leaves the locks and its reply as they are.
unfoldable pub unlock : String → LockServer → LockServer × Bool
unlock lockname ls = (ls, false)

-- `Lock` of a client: the server afterwards, and what the client returns. The call may fail before
-- or after the handler has run.
pub data Call : Type 0 where
  unsent unanswered answered : Call

unfoldable pub clerk_lock : Call → String → LockServer → LockServer × Bool
unfolding lock
clerk_lock unsent lockname ls = (ls, false)
clerk_lock unanswered lockname ls = ((lock lockname ls).0, false)
clerk_lock answered lockname ls = lock lockname ls

-- `Unlock` of a client makes no call.
abbrev pub clerk_unlock : String → LockServer → LockServer × Bool
clerk_unlock lockname ls = (ls, false)

-- What the clients and the server do
pub data Event : Type 0 where
  locks : Call → String → Event
  unlocks : String → Event

unfoldable pub run : List Event → LockServer → LockServer
run [] ls = ls
run (locks c lockname ∷ es) ls = run es (clerk_lock c lockname ls).0
run (unlocks lockname ∷ es) ls = run es (unlock lockname ls).0

abbrev pub is_locked : String → LockServer → Bool
is_locked lockname ls = or_zero false (lookup lockname ls.locks)

clerk_lock-keeps :
    (c : Call) (other lockname : String) (ls : LockServer)
    → is_locked lockname ls ≡ true
    → is_locked lockname (clerk_lock c other ls).0 ≡ true
unfolding clerk_lock lock
clerk_lock-keeps unsent other lockname ls h = h
clerk_lock-keeps unanswered other lockname ls h =
    ground (arith, lookup-insert other lockname true ls.locks)
clerk_lock-keeps answered other lockname ls h =
    ground (arith, lookup-insert other lockname true ls.locks)

run-keeps :
    (es : List Event) (lockname : String) (ls : LockServer)
    → is_locked lockname ls ≡ true
    → is_locked lockname (run es ls) ≡ true
unfolding run unlock
run-keeps [] lockname ls h = h
run-keeps (locks c other ∷ es) lockname ls h =
    run-keeps es lockname (clerk_lock c other ls).0 (clerk_lock-keeps c other lockname ls h)
run-keeps (unlocks other ∷ es) lockname ls h = run-keeps es lockname ls h

clerk_lock-refused :
    (c : Call) (lockname : String) (ls : LockServer)
    → is_locked lockname ls ≡ true
    → (clerk_lock c lockname ls).1 ≡ false
unfolding clerk_lock lock
clerk_lock-refused unsent lockname ls h = refl
clerk_lock-refused unanswered lockname ls h = refl
clerk_lock-refused answered lockname ls h = ground arith

-- Mutual exclusion: once a client was granted a lock, no client is granted it, whatever locks and
-- unlocks come in between and whatever becomes of their calls.
pub clerk_lock-excludes :
    (lockname : String) (ls : LockServer) (es : List Event) (c : Call)
    → (clerk_lock answered lockname ls).1 ≡ true
    → (clerk_lock c lockname (run es (clerk_lock answered lockname ls).0)).1 ≡ false
unfolding clerk_lock lock
clerk_lock-excludes lockname ls es c h =
    let s = run es (clerk_lock answered lockname ls).0 in
    clerk_lock-refused c lockname s (
      run-keeps es lockname (clerk_lock answered lockname ls).0
        (ground (arith, h, lookup-insert lockname lockname true ls.locks, ==-self lockname)))
