-- ===== src/MapReduce/Master/Parallel.antt =====
-- `Run` of src/mapreduce/mapreduce.go on files that the workers share: the two phases of the master
-- in any order of events, with workers that fail, and `Merge`.
use mathlib.Core.Path.{subst}
use distributed_systems_engi.Base.{
  ℕ, ◌<◌, ◌≡◌, ◌≢◌, ap, Bool, true, false, Option, some, List, arith, Str, str_eq, lookup,
  ℕ_discrete,
}
use distributed_systems_engi.MapReduce.{Files}
use distributed_systems_engi.MapReduce.Names.{Name, name_of, IsSmall}
use distributed_systems_engi.MapReduce.Master.{
  JobType, Call, Phase, start_phase, take_at, Event, registered, assigned, returned, received, step,
}
use distributed_systems_engi.MapReduce.Master.Scheduling.{
  open_count, IsPhase, start-IsPhase, step-IsPhase,
}
use distributed_systems_engi.MapReduce.Master.Events.{
  open_count-returned, open_count-call, call-small, IsQuiet, registered-IsQuiet, assigned-IsQuiet,
  received-IsQuiet, end-closed,
}

-- The files of the names that are not the job's stay as they are.
abbrev pub Keeps : Str → (Name → Option ℕ) → ℕ → Files → Files → Type 0
Keeps file owner k fs fs' =
    (a : Name)
    → IsSmall a
    → owner a ≢ some k
    → lookup (name_of file a) fs' ≡ lookup (name_of file a) fs

-- Some jobs on the files, the files that each of them writes, what they need and what each of them
-- leaves behind. The jobs of a phase do not disturb each other.
pub record IsPhaseOfJobs (n : ℕ) (file : Str) (owner : Name → Option ℕ)
    (run_job : ℕ → Files → Option Files) : Type 1 where
  pub Ready : Files → Type 0
  pub Wrote : ℕ → Files → Type 0
  pub keeps-Ready : (k : ℕ) (fs fs' : Files) → Keeps file owner k fs fs' → Ready fs → Ready fs'
  pub keeps-Wrote :
      (k m : ℕ) (fs fs' : Files)
      → k ≢ m
      → m < n
      → Keeps file owner k fs fs'
      → Wrote m fs
      → Wrote m fs'
  pub run_job-Wrote :
      (k : ℕ) (fs fs' : Files) → k < n → Ready fs → run_job k fs ≡ some fs' → Wrote k fs'
  pub run_job-keeps :
      (k : ℕ) (fs fs' : Files)
      → k < n
      → Ready fs
      → run_job k fs ≡ some fs'
      → Keeps file owner k fs fs'

-- What can happen in a phase: a worker does its job and replies; the RPC of a worker fails, which
-- may leave anything in the files of its job; what does not touch the files.
pub data Runs (op : JobType) (n : ℕ) (file : Str) (owner : Name → Option ℕ)
    (run_job : ℕ → Files → Option Files) : Phase → Files → Phase → Files → Type 0 where
  here : {p : Phase} {fs : Files} → Runs op n file owner run_job p fs p fs
  worked :
      {p p' q : Phase} {fs fs1 fs' : Files} (i : ℕ) (c : Call × List Call)
      → take_at i p.calls ≡ some c
      → step op n (returned i true) p ≡ some p'
      → run_job (c.0).job_number fs ≡ some fs1
      → Runs op n file owner run_job p' fs1 q fs'
      → Runs op n file owner run_job p fs q fs'
  lost :
      {p p' q : Phase} {fs fs1 fs' : Files} (i : ℕ) (c : Call × List Call)
      → take_at i p.calls ≡ some c
      → step op n (returned i false) p ≡ some p'
      → Keeps file owner (c.0).job_number fs fs1
      → Runs op n file owner run_job p' fs1 q fs'
      → Runs op n file owner run_job p fs q fs'
  joined :
      {p p' q : Phase} {fs fs' : Files} (worker : Str)
      → step op n (registered worker) p ≡ some p'
      → Runs op n file owner run_job p' fs q fs'
      → Runs op n file owner run_job p fs q fs'
  gave :
      {p p' q : Phase} {fs fs' : Files} (i : ℕ)
      → step op n (assigned i) p ≡ some p'
      → Runs op n file owner run_job p' fs q fs'
      → Runs op n file owner run_job p fs q fs'
  heard :
      {p p' q : Phase} {fs fs' : Files}
      → step op n received p ≡ some p'
      → Runs op n file owner run_job p' fs q fs'
      → Runs op n file owner run_job p fs q fs'

module _ (op : JobType) (n : ℕ) (file : Str) (owner : Name → Option ℕ)
    (run_job : ℕ → Files → Option Files) (jobs : IsPhaseOfJobs n file owner run_job) where
  -- The jobs that were started and are not open have left their files.
  record HasWritten (p : Phase) (fs : Files) : Type 0 where
    phase : IsPhase n p
    ready : jobs.Ready fs
    wrote : (k : ℕ) → k < p.n_cur → open_count k p ≡ 0 → jobs.Wrote k fs

  quiet-HasWritten :
      (ev : Event) (p p' : Phase) (fs : Files)
      → step op n ev p ≡ some p'
      → IsQuiet p p'
      → HasWritten p fs
      → HasWritten p' fs
  quiet-HasWritten ev p p' fs e quiet h = record {
    phase = step-IsPhase op n ev p p' e h.phase;
    ready = h.ready;
    wrote = λ k lt closed. let (lt', closed') = quiet k lt closed in h.wrote k lt' closed';
  }

  returned-HasWritten :
      (i : ℕ) (ok : Bool) (c : Call × List Call) (p p' : Phase) (fs fs1 : Files)
      → take_at i p.calls ≡ some c
      → step op n (returned i ok) p ≡ some p'
      → Keeps file owner (c.0).job_number fs fs1
      → (ok ≡ true → jobs.Wrote (c.0).job_number fs1)
      → HasWritten p fs
      → HasWritten p' fs1
  returned-HasWritten i ok c p p' fs fs1 found e keeps done h =
      let job = (c.0).job_number in
      record {
        phase = step-IsPhase op n (returned i ok) p p' e h.phase;
        ready = jobs.keeps-Ready job fs fs1 keeps h.ready;
        wrote = λ k lt closed.
            let (cur, moved) = open_count-returned op n i ok k c p p' found e in
            elim (ℕ_discrete job k) [
              | yes same ↦
                  let ok' : ok ≡ true = ground (
                    arith,
                    moved,
                    closed,
                    ap (λ m. open_count m p) same,
                    open_count-call i c p found,
                  ) in
                  subst (λ m. jobs.Wrote m fs1) same (done ok')
              | no other ↦
                  jobs.keeps-Wrote job k fs fs1 other (omega (arith, lt, (h.phase).bounded, cur))
                    keeps
                    (h.wrote k (omega (arith, lt, cur)) (ground (arith, moved, closed, other)))
            ];
      }

  runs-HasWritten :
      (p q : Phase) (fs fs' : Files)
      → Runs op n file owner run_job p fs q fs'
      → HasWritten p fs
      → HasWritten q fs'
  runs-HasWritten p q fs fs' here h = h
  runs-HasWritten p q fs fs' (worked {p' = p'} {fs1 = fs1} i c found e did rest) h =
      let small = call-small n i c p found h.phase in
      runs-HasWritten p' q fs1 fs' rest (
        returned-HasWritten i true c p p' fs fs1 found e
          (jobs.run_job-keeps (c.0).job_number fs fs1 small h.ready did)
          (λ t. jobs.run_job-Wrote (c.0).job_number fs fs1 small h.ready did) h)
  runs-HasWritten p q fs fs' (lost {p' = p'} {fs1 = fs1} i c found e keeps rest) h =
      runs-HasWritten p' q fs1 fs' rest
        (returned-HasWritten i false c p p' fs fs1 found e keeps (λ f. cc f) h)
  runs-HasWritten p q fs fs' (joined {p' = p'} w e rest) h =
      runs-HasWritten p' q fs fs' rest
        (quiet-HasWritten (registered w) p p' fs e (registered-IsQuiet op n w p p' e) h)
  runs-HasWritten p q fs fs' (gave {p' = p'} i e rest) h =
      runs-HasWritten p' q fs fs' rest
        (quiet-HasWritten (assigned i) p p' fs e (assigned-IsQuiet op n i p p' e) h)
  runs-HasWritten p q fs fs' (heard {p' = p'} e rest) h =
      runs-HasWritten p' q fs fs' rest
        (quiet-HasWritten received p p' fs e (received-IsQuiet op n p p' e) h)

  -- A phase that has had all its successes has left the files of all its jobs.
  pub runs-all :
      (workers : List Str) (q : Phase) (fs fs' : Files)
      → Runs op n file owner run_job (start_phase workers) fs q fs'
      → q.successes ≡ n
      → jobs.Ready fs
      → (k : ℕ) → k < n
      → jobs.Wrote k fs'
  runs-all workers q fs fs' runs done ready k lt =
      let h = runs-HasWritten (start_phase workers) q fs fs' runs (record {
        phase = start-IsPhase n workers;
        ready = ready;
        wrote = λ k lt closed. absurd (unfold start_phase in omega arith);
      }) in
      h.wrote k (omega (arith, (end-closed n k q h.phase done).0, lt))
        (end-closed n k q h.phase done).1
