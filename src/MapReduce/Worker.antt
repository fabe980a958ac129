-- ===== src/MapReduce/Worker.antt =====
-- The worker of src/mapreduce/worker.go: the counters of `RunWorker` and `Shutdown`. A pass of the loop
-- of `RunWorker` and the handler `Shutdown` run one at a time here; a job leaves the counters alone.
use distributed_systems_engi.Base.{
  ℕ, suc, ◌-◌, ◌≤◌, ◌<◌, ◌≡◌, refl, Bool, true, false, not, List, [], ◌∷◌, ℤ, pos, negsuc, ◌+ℤ◌,
  ◌==◌, int_eq, Str, if◌then◌else◌, arith,
}

-- `Worker`, with whether its listener is open
pub record Worker : Type 0 where
  pub name : Str
  pub n_rpc : ℤ
  pub n_jobs : ℤ
  pub listening : Bool

-- The start of `RunWorker`, up to its loop
abbrev pub run_worker : Str → ℤ → Worker
run_worker me n_rpc = record {
  name = me;
  n_rpc = n_rpc;
  n_jobs = pos 0;
  listening = not (n_rpc == pos 0);
}

-- `Accept` returns a connection: the rest of the pass, and the test of the loop
unfoldable pub accept : Worker → Worker
accept w =
    let left = w.n_rpc +ℤ negsuc 0 in
    record w { n_rpc = left; n_jobs = w.n_jobs +ℤ pos 1; listening = not (left == pos 0) }

-- `Shutdown`: the state after it, and the Njobs that it replies
unfoldable pub shutdown : Worker → Worker × ℤ
shutdown w = (record w { n_rpc = pos 1; n_jobs = w.n_jobs +ℤ negsuc 0 }, w.n_jobs)

-- What happens to a worker: a connection comes, `Accept` fails, `Shutdown` is served.
pub data Event : Type 0 where
  connected accept_failed shut_down : Event

-- A worker that has left its loop takes no connection.
unfoldable pub step : Event → Worker → Worker
unfolding accept shutdown
step connected w = if w.listening then accept w else w
step accept_failed w = record w { listening = false }
step shut_down w = (shutdown w).0

unfoldable pub steps : List Event → Worker → Worker
unfolding step
steps [] w = w
steps (e ∷ es) w = steps es (step e w)

-- No `Shutdown` comes.
abbrev pub IsUndisturbed : List Event → Type 0
IsUndisturbed [] = Unit
IsUndisturbed (shut_down ∷ es) = ⊥
IsUndisturbed (_ ∷ es) = IsUndisturbed es

-- A worker that may take `n` connections has taken some of them, and listens only while some are left.
pub record Budget (n : ℕ) (w : Worker) : Type 0 where
  pub taken : ℕ
  pub within : taken ≤ n
  pub is_taken : w.n_jobs ≡ pos taken
  pub is_left : w.n_rpc ≡ pos (n - taken)
  pub some_left : w.listening ≡ true → taken < n

run_worker-Budget : (me : Str) (n : ℕ) → Budget n (run_worker me (pos n))
run_worker-Budget me n = record {
  taken = 0;
  within = omega arith;
  is_taken = refl;
  is_left = ground arith;
  some_left = λ e. ground arith;
}

accept-Budget : (n : ℕ) (w : Worker) → w.listening ≡ true → Budget n w → Budget n (accept w)
unfolding accept
accept-Budget n w listens b =
    let room = b.some_left listens in
    record {
      taken = suc b.taken;
      within = room;
      is_taken = ground (arith, b.is_taken);
      is_left = ground (arith, b.is_left, room);
      some_left = λ e. ground (arith, b.is_left, room, e);
    }

step-Budget :
    (n : ℕ) (e : Event) (w : Worker) → IsUndisturbed (e ∷ []) → Budget n w → Budget n (step e w)
unfolding step
step-Budget n connected w u b = if_Budget w.listening (λ listens. accept-Budget n w listens b)
  where
    if_Budget : (t : Bool) → (t ≡ true → Budget n (accept w)) → Budget n (if t then accept w else w)
    if_Budget true h = h refl
    if_Budget false h = b
step-Budget n accept_failed w u b = record {
  taken = b.taken;
  within = b.within;
  is_taken = b.is_taken;
  is_left = b.is_left;
  some_left = λ e. cc;
}
step-Budget n shut_down w u b = absurd u

steps_from-Budget :
    (n : ℕ) (es : List Event) (w : Worker) → IsUndisturbed es → Budget n w → Budget n (steps es w)
unfolding steps
steps_from-Budget n [] w u b = b
steps_from-Budget n (connected ∷ es) w u b =
    steps_from-Budget n es (step connected w) u (step-Budget n connected w tt b)
steps_from-Budget n (accept_failed ∷ es) w u b =
    steps_from-Budget n es (step accept_failed w) u (step-Budget n accept_failed w tt b)
steps_from-Budget n (shut_down ∷ es) w u b = absurd u

-- A worker that is told to take `n` connections takes at most `n`, whatever comes but a `Shutdown`, and
-- listens only while some are left: its counter of jobs is what it has taken.
pub steps-Budget :
    (n : ℕ) (me : Str) (es : List Event)
    → IsUndisturbed es
    → Budget n (steps es (run_worker me (pos n)))
steps-Budget n me es u = steps_from-Budget n es (run_worker me (pos n)) u (run_worker-Budget me n)
