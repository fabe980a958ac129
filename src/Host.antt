-- ===== src/Host.antt =====
-- The connections of a server: `kill`, `setunreliable` and the thread of `StartServer` that accepts
-- connections, which src/kvpaxos/server.go, src/shardmaster/server.go, src/shardkv/server.go and
-- src/diskv/server.go have in the same words. The socket, the random draws and the moments at which
-- the flags are set are a parameter: a list of events. A connection brings one call, as the function call
-- sends. It has a thread of its own, which runs the handler at any later time, also after a kill; the
-- handler holds the mutex of the server, and so runs whole before the next one.
pub mod Faults
pub mod Reliable
mod Tests
use distributed_systems_engi.Base.{
  zero, suc, ◌+◌, Option, none, some, ℕ, ◌%◌, Bool, true, false, not, ◌&&◌, List, [], ◌∷◌, ltb,
  if◌then◌else◌,
}

-- The flags `dead` and `unreliable`, whether the listener is open, and whether the Paxos peer is dead
pub record Host : Type 0 where
  pub dead : Bool
  pub unreliable : Bool
  pub listening : Bool
  pub px_dead : Bool

-- The flags of a new server, as its listener opens
abbrev pub opened : Host
opened = record { dead = false; unreliable = false; listening = true; px_dead = false }

-- `kill`, with the peer's `Kill`
unfoldable pub kill : Host → Host
kill h = record h { dead = true; listening = false; px_dead = true }

-- `setunreliable`
unfoldable pub set_unreliable : Bool → Host → Host
set_unreliable what h = record h { unreliable = what }

-- What `Accept` returns, and what the two calls of rand.Int63 draw
pub record Arrival : Type 0 where
  pub conn : Bool
  pub draw : ℕ
  pub draw' : ℕ

-- What becomes of a pass of the loop: no connection; one that is closed at once, as the server is dead
-- or as the request is dropped; one that is served without a reply; one that is served.
pub data Fate : Type 0 where
  failed turned_away discarded muted answered : Fate

-- A pass of the loop, after `Accept`
unfoldable pub pass : Arrival → Host → Fate
pass a h =
    if a.conn
    then (if not h.dead
        then (if h.unreliable && ltb (a.draw % 1000) 100
            then discarded
            else if h.unreliable && ltb (a.draw' % 1000) 200
            then muted
            else answered)
        else turned_away)
    else failed

-- The end of the pass: the server is killed where `Accept` fails while it is not dead.
unfoldable pub after_pass : Fate → Host → Host
unfolding kill
after_pass failed h = if not h.dead then kill h else h
after_pass _ h = h

-- What happens to a server: a connection comes with a request, the thread of an open connection runs its
-- handler, `kill` and `setunreliable` are called.
pub data Event (Q : Type 0) : Type 0 where
  arrives : Arrival → Q → Event Q
  handled : ℕ → Event Q
  killed : Event Q
  made_unreliable : Bool → Event Q

-- The handlers of a server, as one function on its state
pub record Service (Q R S : Type 0) : Type 0 where
  pub handle : Q → S → S × R

-- A connection whose request is not handled yet, and whether its reply will be sent
pub record Open (Q : Type 0) : Type 0 where
  pub request : Q
  pub replies : Bool

-- go rpcs.ServeConn(conn)
unfoldable pub serve_conn : {Q : Type 0} → Fate → Q → List (Open Q) → List (Open Q)
serve_conn muted q os = record { request = q; replies = false } ∷ os
serve_conn answered q os = record { request = q; replies = true } ∷ os
serve_conn _ q os = os

-- An open connection, and the others
unfoldable pub take_open : {Q : Type 0} → ℕ → List (Open Q) → Option (Open Q × List (Open Q))
take_open k [] = none
take_open zero (o ∷ os) = some (o, os)
take_open (suc k) (o ∷ os) = elim (take_open k os) [ none ↦ none | some p ↦ some (p.0, o ∷ p.1) ]

module _ {Q R S : Type 0} where
  -- The server over a list of events: its flags, its open connections, its state, and the replies that it
  -- sends
  unfoldable pub run :
      Service Q R S → List (Event Q) → Host → List (Open Q) → S → Host × List (Open Q) × S × List R
  unfolding pass after_pass kill set_unreliable serve_conn take_open
  run sv [] h os s = (h, os, s, [])
  run sv (killed ∷ es) h os s = run sv es (kill h) os s
  run sv (made_unreliable what ∷ es) h os s = run sv es (set_unreliable what h) os s
  run sv (arrives a q ∷ es) h os s =
      let fate = pass a h in run sv es (after_pass fate h) (serve_conn fate q os) s
  run sv (handled k ∷ es) h os s = elim (take_open k os) [
    | none ↦ run sv es h os s
    | some p ↦
        let (s', r) = sv.handle p.0.request s in
        let (h'', os'', s'', rs) = run sv es h p.1 s' in
        (h'', os'', s'', if p.0.replies then r ∷ rs else rs)
  ]

  -- The handlers one after the other
  unfoldable pub handle_all : Service Q R S → List Q → S → S × List R
  handle_all sv [] s = (s, [])
  handle_all sv (q ∷ qs) s =
      let (s', r) = sv.handle q s in let (s'', rs) = handle_all sv qs s' in (s'', r ∷ rs)

-- The requests that come before the server is killed, or kills itself as `Accept` fails.
unfoldable pub asked : {Q : Type 0} → List (Event Q) → List Q
asked [] = []
asked (killed ∷ es) = []
asked (made_unreliable what ∷ es) = asked es
asked (handled k ∷ es) = asked es
asked (arrives a q ∷ es) = let rest = asked es in if a.conn then q ∷ rest else []

-- How many elements of a list pass a test
unfoldable pub tally : {A : Type 0} → (A → Bool) → List A → ℕ
tally p [] = 0
tally p (x ∷ xs) = let rest = tally p xs in if p x then rest + 1 else rest

-- The first list comes from the second by leaving some of its elements out.
pub data Part {A : Type 0} : List A → List A → Type 0 where
  empty : Part [] []
  keep : {x : A} {xs ys : List A} → Part xs ys → Part (x ∷ xs) (x ∷ ys)
  drop : {x : A} {xs ys : List A} → Part xs ys → Part xs (x ∷ ys)
