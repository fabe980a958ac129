-- ===== src/MapReduce/Master.antt =====
-- src/mapreduce/master.go: the master schedules the jobs of a phase on workers that register with it
-- and that may fail; `DoJob` of src/mapreduce/worker.go. `ScheduleMapJob` and `ScheduleReduceJob` are
-- the same code for two kinds of job.
pub mod Counting
pub mod Scheduling
pub mod Events
pub mod Bound
pub mod Parallel
pub mod Output
mod Tests
mod RunTests
use distributed_systems_engi.Base.{
  ℕ, zero, suc, ◌+◌, ◌≡◌, Bool, true, false, Option, none, some, List, [], ◌∷◌, ◌++◌, ltb,
  if◌then◌else◌, Str, length,
}
use distributed_systems_engi.MapReduce.{KeyValue, Json, Files, do_map, do_reduce}

pub data JobType : Type 0 where
  mapping : JobType
  reducing : JobType

pub record DoJobArgs : Type 0 where
  pub file : Str
  pub operation : JobType
  pub job_number : ℕ
  pub num_other_phase : ℕ

-- `DoJob` of a worker on the files; `none` is log.Fatal.
unfoldable pub do_job :
    Json → (Str → List KeyValue) → (Str → List Str → Str) → DoJobArgs → Files → Option Files
unfolding do_map do_reduce
do_job j map_fun reduce_fun args fs = elim args.operation [
  | mapping ↦ do_map j map_fun args.job_number args.file args.num_other_phase fs
  | reducing ↦ do_reduce j reduce_fun args.job_number args.file args.num_other_phase fs
]

-- What a worker does with the arguments that the master makes for a job
abbrev pub job_of :
    Json
    → (Str → List KeyValue)
    → (Str → List Str → Str)
    → Str
    → JobType
    → ℕ
    → ℕ
    → Files
    → Option Files
job_of j map_fun reduce_fun file op other k fs =
    do_job j map_fun reduce_fun
      (record { file = file; operation = op; job_number = k; num_other_phase = other }) fs

-- What `CallWorker` reports of a job
pub record JobState : Type 0 where
  pub worker_name : Str
  pub job_method : JobType
  pub job_num : ℕ
  pub is_success : Bool

-- A goroutine in `CallWorker`: the worker and the number of the job
pub record Call : Type 0 where
  pub worker : Str
  pub job_number : ℕ

-- A phase: nCurMap or nCurReduce, the i of its second loop, the failed job for which that loop waits
-- for a worker, the goroutines whose RPC has not returned, the channel of reports, and the workers
-- that someone waits to send on registerChannel.
pub record Phase : Type 0 where
  pub n_cur : ℕ
  pub successes : ℕ
  pub failed : Option ℕ
  pub calls : List Call
  pub reports : List JobState
  pub waiting : List Str

unfoldable pub start_phase : List Str → Phase
start_phase workers = record {
  n_cur = 0;
  successes = 0;
  failed = none;
  calls = [];
  reports = [];
  waiting = workers;
}

-- The element at a position, and the others
unfoldable pub take_at {ℓ} : {A : Type ℓ} → ℕ → List A → Option (A × List A)
take_at i [] = none
take_at zero (x ∷ xs) = some (x, xs)
take_at (suc i) (x ∷ xs) = elim (take_at i xs) [ none ↦ none | some p ↦ some (p.0, x ∷ p.1) ]

-- `Register`: its send on registerChannel
unfoldable pub register : Str → Phase → Phase
register worker p = record p { waiting = p.waiting ++ worker ∷ [] }

unfoldable pub start_call : Str → ℕ → Phase → Phase
start_call worker job p = record p {
  calls = p.calls ++ record { worker = worker; job_number = job } ∷ [];
}

-- The loops with a worker received from registerChannel: the first starts the next job, the second
-- the failed one. `none` where neither of them receives a worker.
unfoldable pub assign : ℕ → Str → Phase → Option Phase
unfolding start_call
assign n worker p =
    if ltb p.n_cur n
    then some (start_call worker p.n_cur (record p { n_cur = p.n_cur + 1 }))
    else elim p.failed [
      | none ↦ none
      | some job ↦ some (start_call worker job (record p { failed = none }))
    ]

-- `CallWorker` once its RPC has returned
unfoldable pub call_worker : JobType → Bool → Call → Phase → Phase
unfolding register
call_worker op ok c p =
    let state : JobState = record {
      worker_name = c.worker;
      job_method = op;
      job_num = c.job_number;
      is_success = ok;
    } in
    let reported = record p { reports = p.reports ++ state ∷ [] } in
    if ok then register c.worker reported else reported

-- The second loop as it receives a report. `none` where it does not: in the first loop, at the end,
-- while it waits for a worker, and on an empty channel.
unfoldable pub receive : ℕ → Phase → Option Phase
receive n p =
    if ltb p.n_cur n
    then none
    else if ltb p.successes n
    then elim p.failed [
      | some job ↦ none
      | none ↦ elim p.reports [
        | [] ↦ none
        | state ∷ rest ↦ some (
            if state.is_success
            then record p { successes = p.successes + 1; reports = rest }
            else record p { failed = some state.job_num; reports = rest })
      ]
    ]
    else none

-- What may happen next: a worker registers, the loop receives the worker at a position, the RPC of
-- the goroutine at a position returns, the loop receives a report.
pub data Event : Type 0 where
  registered : Str → Event
  assigned : ℕ → Event
  returned : ℕ → Bool → Event
  received : Event

unfoldable pub step : JobType → ℕ → Event → Phase → Option Phase
unfolding register assign call_worker receive take_at
step op n (registered worker) p = some (register worker p)
step op n (assigned i) p = elim (take_at i p.waiting) [
  | none ↦ none
  | some w ↦ assign n w.0 (record p { waiting = w.1 })
]
step op n (returned i ok) p = elim (take_at i p.calls) [
  | none ↦ none
  | some c ↦ some (call_worker op ok c.0 (record p { calls = c.1 }))
]
step op n received p = receive n p
