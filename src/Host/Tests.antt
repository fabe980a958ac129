-- ===== src/Host/Tests.antt =====
-- A server that counts: an unreliable one drops a request and loses a reply, and is killed; the threads of
-- a reliable one run in another order than their connections came.
use distributed_systems_engi.Base.{ℕ, ◌+◌, ◌≡◌, refl, true, false, List, [], ◌∷◌}
use distributed_systems_engi.Host.{
  Arrival, Event, arrives, handled, killed, made_unreliable, Service, opened, run, asked, pass,
  after_pass, kill, set_unreliable, serve_conn, take_open,
}
use distributed_systems_engi.Host.Faults.{Served, run-served}

abbrev counter : Service ℕ ℕ ℕ
counter = record { handle = λ q n. (n + q, n + q) }

abbrev arrival : ℕ → ℕ → Arrival
arrival draw draw' = record { conn = true; draw = draw; draw' = draw' }

-- The request 2 is handled after the kill, 1 and 8 never.
abbrev faults : List (Event ℕ)
faults =
    made_unreliable true
    ∷ arrives (arrival 5000 0) 1
    ∷ arrives (arrival 500 5150) 2
    ∷ arrives (arrival 500 500) 4
    ∷ handled 0
    ∷ killed
    ∷ arrives (arrival 500 500) 8
    ∷ handled 0
    ∷ handled 0
    ∷ []

counts :
    run counter faults opened [] 0
    ≡ (record { dead = true; unreliable = true; listening = false; px_dead = true }, [], 6, 4 ∷ [])
unfolding run pass after_pass kill set_unreliable serve_conn take_open
counts = refl

run-served_example : Served counter (1 ∷ 2 ∷ 4 ∷ []) [] 0 [] 6 (4 ∷ [])
unfolding run pass after_pass kill set_unreliable serve_conn take_open asked
run-served_example = run-served counter faults opened [] 0

-- The request 4 is handled before 2, and 1 is still open.
abbrev calls : List (Event ℕ)
calls =
    arrives (arrival 0 0) 1
    ∷ arrives (arrival 0 0) 2
    ∷ arrives (arrival 0 0) 4
    ∷ handled 0
    ∷ handled 0
    ∷ []
