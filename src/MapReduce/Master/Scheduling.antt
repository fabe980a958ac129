-- ===== src/MapReduce/Master/Scheduling.antt =====
-- The jobs of a phase of src/mapreduce/master.go: where each of them is.
use mathlib.Core.Path.{subst}
use distributed_systems_engi.Base.{
  List-cases, ℕ, ◌+◌, ◌<◌, ◌≤◌, ◌≡◌, ◌⊎◌, inl, inr, Bool, true, false, Option, none, some, List, [],
  ◌∷◌, ◌++◌, arith, eqb, ltb, if◌then◌else◌, Str, length, length-append, Option-cases, Bool-cases,
}
use distributed_systems_engi.MapReduce.Master.{
  JobType, JobState, Call, Phase, start_phase, take_at, register, start_call, assign, call_worker,
  receive, Event, registered, assigned, returned, received, step,
}
use distributed_systems_engi.MapReduce.Master.Counting.{
  sum, sum-append, sum-take_at, length-take_at,
}

-- 1 if the numbers are the same, else 0
abbrev pub is : ℕ → ℕ → ℕ
is k m = if eqb m k then 1 else 0

abbrev pub is_call : ℕ → Call → ℕ
is_call k c = is k c.job_number

abbrev pub is_failure : ℕ → JobState → ℕ
is_failure k s = if s.is_success then 0 else is k s.job_num

abbrev pub is_failed : ℕ → Option ℕ → ℕ
is_failed k none = 0
is_failed k (some m) = is k m

abbrev pub size : Option ℕ → ℕ
size none = 0
size (some m) = 1

-- How often a job is with a worker, reported as failed, or waits for another worker
unfoldable pub open_count : ℕ → Phase → ℕ
unfolding sum
open_count k p = sum (is_call k) p.calls + sum (is_failure k) p.reports + is_failed k p.failed

-- The jobs that were started are those that succeeded and those that are under way, none of them
-- twice.
pub record IsPhase (n : ℕ) (p : Phase) : Type 0 where
  pub bounded : p.n_cur ≤ n
  pub counted : p.n_cur ≡ p.successes + length p.calls + length p.reports + size p.failed
  pub once : (k : ℕ) → open_count k p ≤ 1
  pub new : (k : ℕ) → p.n_cur ≤ k → open_count k p ≡ 0

pub start-IsPhase : (n : ℕ) (workers : List Str) → IsPhase n (start_phase workers)
unfolding start_phase open_count sum
start-IsPhase n workers = record {
  bounded = omega arith;
  counted = omega arith;
  once = λ k. omega arith;
  new = λ k h. omega arith;
}

-- What the steps keep, given how the open jobs change
waiting-IsPhase :
    (n : ℕ) (ws : List Str) (p : Phase) → IsPhase n p → IsPhase n (record p { waiting = ws })
unfolding open_count
waiting-IsPhase n ws p h = record {
  bounded = h.bounded;
  counted = h.counted;
  once = h.once;
  new = h.new;
}

pub open_count-call_worker :
    (op : JobType) (ok : Bool) (i k : ℕ) (q : Call × List Call) (p : Phase)
    → take_at i p.calls ≡ some q
    → open_count k (call_worker op ok q.0 (record p { calls = q.1 }))
        + (if ok then is k (q.0).job_number else 0)
      ≡ open_count k p
unfolding open_count call_worker register
open_count-call_worker op ok i k q p e = ground (
  arith,
  sum-take_at (is_call k) i p.calls q e,
  sum-append (is_failure k) p.reports (
      record {
        worker_name = (q.0).worker;
        job_method = op;
        job_num = (q.0).job_number;
        is_success = ok;
      }
      ∷ []),
)

call_worker-IsPhase :
    (op : JobType) (n i : ℕ) (ok : Bool) (q : Call × List Call) (p : Phase)
    → take_at i p.calls ≡ some q
    → IsPhase n p
    → IsPhase n (call_worker op ok q.0 (record p { calls = q.1 }))
unfolding call_worker register
call_worker-IsPhase op n i true q p e h =
    let moved = λ (k : ℕ). open_count-call_worker op true i k q p e in
    record {
      bounded = h.bounded;
      counted =
          omega (arith, h.counted, length-take_at i p.calls q e, length-append p.reports (_ ∷ []));
      once = λ k. omega (arith, moved k, h.once k);
      new = λ k le. omega (arith, moved k, h.new k le);
    }
call_worker-IsPhase op n i false q p e h =
    let moved = λ (k : ℕ). open_count-call_worker op false i k q p e in
    record {
      bounded = h.bounded;
      counted =
          omega (arith, h.counted, length-take_at i p.calls q e, length-append p.reports (_ ∷ []));
      once = λ k. omega (arith, moved k, h.once k);
      new = λ k le. omega (arith, moved k, h.new k le);
    }

-- What the loop does with a worker
pub assign-cases :
    (n : ℕ) (w : Str) (p p' : Phase)
    → assign n w p ≡ some p'
    → ((p.n_cur < n) × (p' ≡ start_call w p.n_cur (record p { n_cur = p.n_cur + 1 })))
      ⊎ ((n ≤ p.n_cur)
          × (job : ℕ) × (p.failed ≡ some job)
          × (p' ≡ start_call w job (record p { failed = none })))
unfolding assign
assign-cases n w p p' e = elim (Bool-cases (ltb p.n_cur n)) [
  | inl more ↦ inl (ground (arith, more), ground (arith, e, more))
  | inr all ↦ elim (Option-cases p.failed) [
    | inl none' ↦ cc (e, all, none')
    | inr (job, f) ↦ inr (ground (arith, all), job, f, ground (arith, e, all, f))
  ]
]

-- What the loop does with a report
pub receive-cases :
    (n : ℕ) (p p' : Phase)
    → receive n p ≡ some p'
    → (n ≤ p.n_cur)
      × (p.failed ≡ none)
      × (s : JobState) × (rest : List JobState) × (p.reports ≡ s ∷ rest)
      × (p' ≡ (
          if s.is_success
          then record p { successes = p.successes + 1; reports = rest }
          else record p { failed = some s.job_num; reports = rest }))
unfolding receive
receive-cases n p p' e = elim (Bool-cases (ltb p.n_cur n)) [
  | inl more ↦ cc
  | inr all ↦ elim (Bool-cases (ltb p.successes n)) [
    | inr over ↦ cc
    | inl left ↦ elim (Option-cases p.failed) [
      | inr (job, f) ↦ cc
      | inl f ↦ elim (List-cases p.reports) [
        | inl r ↦ cc
        | inr (s, rest, r) ↦
            (ground (arith, all), f, s, rest, r, ground (arith, e, all, left, f, r))
      ]
    ]
  ]
]

pub open_count-assign :
    (n k : ℕ) (w : Str) (p p' : Phase)
    → assign n w p ≡ some p'
    → open_count k p' ≡ open_count k p + (if ltb p.n_cur n then is k p.n_cur else 0)
unfolding open_count start_call sum
open_count-assign n k w p p' e = elim (assign-cases n w p p' e) [
  | inl (more, e') ↦ rw e' (
      ground (
        arith,
        more,
        sum-append (is_call k) p.calls (record { worker = w; job_number = p.n_cur } ∷ []),
      ))
  | inr (all, job, f, e') ↦ rw e' (
      ground (
        arith,
        all,
        f,
        sum-append (is_call k) p.calls (record { worker = w; job_number = job } ∷ []),
      ))
]

assign-IsPhase :
    (n : ℕ) (w : Str) (p p' : Phase) → assign n w p ≡ some p' → IsPhase n p → IsPhase n p'
unfolding start_call
assign-IsPhase n w p p' e h =
    let moved = λ (k : ℕ). open_count-assign n k w p p' e in
    let one = λ (c : Call). length-append p.calls (c ∷ []) in
    elim (assign-cases n w p p' e) [
      | inl (more, e') ↦ record {
        bounded = rw e' (omega (arith, more));
        counted =
            rw e' (omega (arith, h.counted, one (record { worker = w; job_number = p.n_cur })));
        once = λ k. ground (arith, moved k, h.once k, h.new k);
        new = λ k le. ground (arith, moved k, h.new k, le, e');
      }
      | inr (all, job, f, e') ↦ record {
        bounded = rw e' h.bounded;
        counted =
            rw e' (ground (arith, f, h.counted, one (record { worker = w; job_number = job })));
        once = λ k. ground (arith, moved k, h.once k, all);
        new = λ k le. ground (arith, moved k, h.new k, le, e');
      }
    ]

pub open_count-receive :
    (n k : ℕ) (p p' : Phase) → receive n p ≡ some p' → open_count k p' ≡ open_count k p
unfolding open_count sum
open_count-receive n k p p' e =
    let (_, f, s, rest, r, e') = receive-cases n p p' e in ground (arith, e', f, r)

receive-IsPhase : (n : ℕ) (p p' : Phase) → receive n p ≡ some p' → IsPhase n p → IsPhase n p'
receive-IsPhase n p p' e h =
    let (_, f, s, rest, r, e') = receive-cases n p p' e in
    let moved = λ (k : ℕ). open_count-receive n k p p' e in
    record {
      bounded = ground (arith, e', h.bounded);
      counted = ground (arith, e', f, r, h.counted);
      once = λ k. ground (arith, moved k, h.once k);
      new = λ k le. ground (arith, moved k, h.new k, le, e');
    }

pub step-IsPhase :
    (op : JobType) (n : ℕ) (e : Event) (p p' : Phase)
    → step op n e p ≡ some p'
    → IsPhase n p
    → IsPhase n p'
unfolding step register
step-IsPhase op n (registered worker) p p' e h =
    subst (IsPhase n) (ground (arith, e)) (waiting-IsPhase n (p.waiting ++ worker ∷ []) p h)
step-IsPhase op n (assigned i) p p' e h = elim (Option-cases (take_at i p.waiting)) [
  | inl none' ↦ cc
  | inr (w, found) ↦
      assign-IsPhase n w.0 (record p { waiting = w.1 }) p' (ground (arith, e, found))
        (waiting-IsPhase n w.1 p h)
]
step-IsPhase op n (returned i ok) p p' e h = elim (Option-cases (take_at i p.calls)) [
  | inl none' ↦ cc
  | inr (c, found) ↦
      let same : call_worker op ok c.0 (record p { calls = c.1 }) ≡ p' = ground (arith, e, found) in
      subst (IsPhase n) same (call_worker-IsPhase op n i ok c p found h)
]
step-IsPhase op n received p p' e h = receive-IsPhase n p p' e h
