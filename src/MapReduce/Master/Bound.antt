-- ===== src/MapReduce/Master/Bound.antt =====
-- How long a phase of src/mapreduce/master.go lasts, and that it does not get stuck.
use mathlib.Core.Path.{subst}
use distributed_systems_engi.Base.{
  List-cases, ℕ, suc, ◌+◌, ◌*◌, ◌-◌, ◌<◌, ◌≤◌, ◌≡◌, refl, ◌⊎◌, inl, inr, true, false, Option, none,
  some, List, [], ◌∷◌, arith, ltb, is_some, ◌≢◌, if◌then◌else◌, Str, length, length-append,
  Option-cases, Bool-cases,
}
use distributed_systems_engi.MapReduce.Master.{
  JobType, JobState, Call, Phase, start_phase, take_at, register, start_call, assign, call_worker,
  receive, Event, registered, assigned, returned, received, step,
}
use distributed_systems_engi.MapReduce.Master.Scheduling.{
  size, open_count, IsPhase, start-IsPhase, step-IsPhase, assign-cases, receive-cases,
}
use distributed_systems_engi.MapReduce.Master.Counting.{sum, sum-append, length-take_at}

unfoldable pub run : JobType → ℕ → List Event → Phase → Option Phase
unfolding step
run op n [] p = some p
run op n (e ∷ es) p = elim (step op n e p) [ none ↦ none | some p' ↦ run op n es p' ]

pub run-next :
    (op : JobType) (n : ℕ) (e : Event) (es : List Event) (p p' : Phase)
    → run op n (e ∷ es) p ≡ some p'
    → (q : Phase) × (step op n e p ≡ some q) × (run op n es q ≡ some p')
unfolding run
run-next op n e es p p' h = elim (Option-cases (step op n e p)) [
  | inl none' ↦ cc
  | inr (q, found) ↦ (q, found, ground (arith, h, found))
]

pub run-IsPhase :
    (op : JobType) (n : ℕ) (es : List Event) (p p' : Phase)
    → run op n es p ≡ some p'
    → IsPhase n p
    → IsPhase n p'
run-IsPhase op n [] p p' h ok = unfold run in subst (IsPhase n) (ground (arith, h)) ok
run-IsPhase op n (e ∷ es) p p' h ok =
    let (q, first, rest) = run-next op n e es p p' h in
    run-IsPhase op n es q p' rest (step-IsPhase op n e p q first ok)

-- In every state of a phase a job is at most once with a worker, reported as failed or waiting for
-- another worker, and the calls that have not returned still have room in the channel for reports,
-- which is as large as the number of jobs.
pub run-once :
    (op : JobType) (n : ℕ) (workers : List Str) (es : List Event) (p : Phase)
    → run op n es (start_phase workers) ≡ some p
    → ((k : ℕ) → open_count k p ≤ 1) × (length p.calls + length p.reports ≤ n)
run-once op n workers es p h =
    let ok = run-IsPhase op n es (start_phase workers) p h (start-IsPhase n workers) in
    (ok.once, omega (arith, ok.bounded, ok.counted))

abbrev report_weight : JobState → ℕ
report_weight s = if s.is_success then 1 else 4

-- The events that a phase still has before it if no call fails
weight : ℕ → Phase → ℕ
unfolding sum
weight n p =
    3 * (n - p.n_cur) + 2 * length p.calls + sum report_weight p.reports + 3 * size p.failed

-- The events of a phase, workers that register aside
unfoldable pub moves : List Event → ℕ
moves [] = 0
moves (registered worker ∷ es) = moves es
moves (_ ∷ es) = suc (moves es)

-- The calls that failed
unfoldable pub losses : List Event → ℕ
losses [] = 0
losses (returned i false ∷ es) = suc (losses es)
losses (_ ∷ es) = losses es

moves-cons : (e : Event) (es : List Event) → moves (e ∷ es) ≡ moves (e ∷ []) + moves es
unfolding moves
moves-cons (registered worker) es = omega arith
moves-cons (assigned i) es = omega arith
moves-cons (returned i ok) es = omega arith
moves-cons received es = omega arith

losses-cons : (e : Event) (es : List Event) → losses (e ∷ es) ≡ losses (e ∷ []) + losses es
unfolding losses
losses-cons (registered worker) es = omega arith
losses-cons (assigned i) es = omega arith
losses-cons (returned i true) es = omega arith
losses-cons (returned i false) es = omega arith
losses-cons received es = omega arith

no_moves : moves [] ≡ 0
unfolding moves
no_moves = refl

no_losses : losses [] ≡ 0
unfolding losses
no_losses = refl

step-weight :
    (op : JobType) (n : ℕ) (e : Event) (p p' : Phase)
    → step op n e p ≡ some p'
    → weight n p + 3 * losses (e ∷ []) ≡ weight n p' + moves (e ∷ [])
unfolding step weight losses moves register call_worker start_call sum
step-weight op n (registered worker) p p' e = ground (arith, e)
step-weight op n (assigned i) p p' e = elim (Option-cases (take_at i p.waiting)) [
  | inl none' ↦ cc
  | inr (w, found) ↦
      let e' : assign n w.0 (record p { waiting = w.1 }) ≡ some p' = ground (arith, e, found) in
      let added = λ (c : Call). length-append p.calls (c ∷ []) in
      elim (assign-cases n w.0 (record p { waiting = w.1 }) p' e') [
        | inl (more, s) ↦
            rw s (omega (arith, more, added (record { worker = w.0; job_number = p.n_cur })))
        | inr (all, job, f, s) ↦
            rw s (ground (arith, f, added (record { worker = w.0; job_number = job })))
      ]
]
step-weight op n (returned i ok) p p' e = elim (Option-cases (take_at i p.calls)) [
  | inl none' ↦ cc
  | inr (c, found) ↦ ground (
    arith,
    e,
    found,
    length-take_at i p.calls c found,
    sum-append report_weight p.reports (
        record {
          worker_name = (c.0).worker;
          job_method = op;
          job_num = (c.0).job_number;
          is_success = ok;
        }
        ∷ []),
  )
]
step-weight op n received p p' e =
    let (_, f, s, rest, r, e') = receive-cases n p p' e in ground (arith, e', f, r)

run-weight :
    (op : JobType) (n : ℕ) (es : List Event) (p p' : Phase)
    → run op n es p ≡ some p'
    → weight n p + 3 * losses es ≡ weight n p' + moves es
unfolding run
run-weight op n [] p p' h = ground (arith, h, no_moves, no_losses)
run-weight op n (e ∷ es) p p' h =
    let (q, first, rest) = run-next op n e es p p' h in
    ground (
      arith,
      moves-cons e es,
      losses-cons e es,
      step-weight op n e p q first,
      run-weight op n es q p' rest,
    )

-- A phase of `n` jobs in which `f` calls fail has at most 3 n + 3 f events, workers that register
-- aside: it cannot go on for ever unless calls fail for ever.
pub run-bounded :
    (op : JobType) (n : ℕ) (workers : List Str) (es : List Event) (p : Phase)
    → run op n es (start_phase workers) ≡ some p
    → moves es ≤ 3 * n + 3 * losses es
run-bounded op n workers es p h =
    let w = run-weight op n es (start_phase workers) p h in
    let start : weight n (start_phase workers) ≡ 3 * n =
      unfold weight start_phase sum in omega arith in
    omega (arith, w, start)

-- A phase that has not had all its successes goes on when a call returns, and with none under way
-- it receives a report or the first worker that waits.
pub run-goes_on :
    (op : JobType) (n : ℕ) (workers : List Str) (es : List Event) (p : Phase)
    → run op n es (start_phase workers) ≡ some p
    → p.successes < n
    → p.calls ≡ []
    → p.waiting ≢ []
    → (is_some (step op n (assigned 0) p) ≡ true) ⊎ (is_some (step op n received p) ≡ true)
unfolding step take_at assign receive
run-goes_on op n workers es p h left idle some_worker =
    let ok = run-IsPhase op n es (start_phase workers) p h (start-IsPhase n workers) in
    elim (List-cases p.waiting) [
      | inl w ↦ absurd (some_worker w)
      | inr (w, ws, found) ↦ elim (Bool-cases (ltb p.n_cur n)) [
        | inl more ↦ inl (ground (arith, found, more))
        | inr all ↦ elim (Option-cases p.failed) [
          | inr (job, f) ↦ inl (ground (arith, found, all, f))
          | inl f ↦ elim (List-cases p.reports) [
            | inl r ↦ absurd (ground (arith, ok.counted, ok.bounded, all, f, r, idle, left))
            | inr (s, rest, r) ↦ inr (ground (arith, all, f, r, left))
          ]
        ]
      ]
    ]
