-- ===== src/MapReduce/Lifecycle.antt =====
-- A whole job of src/mapreduce/mapreduce.go: `InitMapReduce`, `Run` with `RunMaster`, `KillWorkers` of
-- src/mapreduce/master.go, and `CleanupRegistration` with the handler `Shutdown` of the master.
use distributed_systems_engi.Base.{
  ℕ, ◌≡◌, Bool, true, false, Option, none, some, List, [], ◌∷◌, ℤ, Map, Str, str_eq, if◌then◌else◌,
}
use distributed_systems_engi.MapReduce.{KeyValue, Json, Files, split_file, merge}
use distributed_systems_engi.MapReduce.Master.{mapping, reducing, job_of, Phase, start_phase}
use distributed_systems_engi.MapReduce.Master.Parallel.{Runs}
use distributed_systems_engi.MapReduce.Master.Output.{map_owner, reduce_owner}

pub record WorkerInfo : Type 0 where
  pub address : Str

-- `MapReduce`, less its channels, which a phase has, and its listener
pub record MapReduce : Type 0 where
  pub n_map : ℕ
  pub n_reduce : ℕ
  pub file : Str
  pub master_address : Str
  pub alive : Bool
  pub stats : Option (List ℤ)
  pub workers : Map Str WorkerInfo
  pub n_cur_map : ℕ
  pub n_cur_reduce : ℕ

unfoldable pub init_map_reduce : ℕ → ℕ → Str → Str → MapReduce
init_map_reduce nmap nreduce file master = record {
  n_map = nmap;
  n_reduce = nreduce;
  file = file;
  master_address = master;
  alive = true;
  stats = none;
  workers = [];
  n_cur_map = 0;
  n_cur_reduce = 0;
}

-- `Shutdown` of the master
unfoldable pub shutdown : MapReduce → MapReduce
shutdown mr = record mr { alive = false }

-- `CleanupRegistration`: whether its RPC arrives
unfoldable pub cleanup_registration : Bool → MapReduce → MapReduce
unfolding shutdown
cleanup_registration ok mr = if ok then shutdown mr else mr

-- The loop of `KillWorkers`, with what a worker answers to `Shutdown`, if it does: the addresses that it
-- calls, and the list that it returns
unfoldable pub kill_each : (Str → Option ℤ) → Map Str WorkerInfo → List Str × List ℤ
kill_each answer [] = ([], [])
kill_each answer ((name, w) ∷ ws) =
    let (called, jobs) = kill_each answer ws in
    (w.address ∷ called, elim (answer w.address) [ none ↦ jobs | some n ↦ n ∷ jobs ])

unfoldable pub kill_workers : (Str → Option ℤ) → MapReduce → List Str × List ℤ
unfolding kill_each
kill_workers answer mr = kill_each answer mr.workers

-- `Run` on the files: `Split`, the phase of map jobs and that of reduce jobs until each has all its
-- successes, `KillWorkers`, `Merge`, and `CleanupRegistration`. The second phase finds the workers
-- waiting that the first leaves.
pub record Run (j : Json) (map_fun : Str → List KeyValue) (reduce_fun : Str → List Str → Str)
    (answer : Str → Option ℤ) (mr : MapReduce) (fs : Files) (mr' : MapReduce) (fs' : Files)
    : Type 0 where
  pub workers : List Str
  pub fs0 : Files
  pub fs1 : Files
  pub fs2 : Files
  pub p : Phase
  pub q : Phase
  pub ok : Bool
  pub split' : split_file mr.n_map mr.file fs ≡ some fs0
  pub mapped :
      Runs mapping mr.n_map mr.file map_owner
        (job_of j map_fun reduce_fun mr.file mapping mr.n_reduce)
        (start_phase workers)
        fs0
        p
        fs1
  pub all_mapped : p.successes ≡ mr.n_map
  pub reduced :
      Runs reducing mr.n_reduce mr.file reduce_owner
        (job_of j map_fun reduce_fun mr.file reducing mr.n_map)
        (start_phase p.waiting)
        fs1
        q
        fs2
  pub all_reduced : q.successes ≡ mr.n_reduce
  pub merged : merge j mr.file mr.n_reduce fs2 ≡ some fs'
  pub ended :
      mr'
      ≡ cleanup_registration ok (record mr {
        n_cur_map = p.n_cur;
        n_cur_reduce = q.n_cur;
        stats = some (kill_workers answer mr).1;
      })
