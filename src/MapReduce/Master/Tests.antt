-- ===== src/MapReduce/Master/Tests.antt =====
-- A job on two workers, one of which fails, and the theorems at concrete inputs.
use distributed_systems_engi.Base.{
  ℕ, ◌+◌, ◌*◌, ◌≤◌, ◌≡◌, refl, true, false, Option, some, none, List, [], ◌∷◌, arith, Str, codes,
  Lacks, split, itoa-Lacks, itoa, length, lookup, insert, str_eq, beq_str, is_some, or_zero,
}
use distributed_systems_engi.MapReduce.{
  Files, split_text, split_file, split_lines, scan_lines, scan_pieces, drop_cr, write_splits,
  out_name, map_name, merge, do_map, do_reduce, write_partitions, reduce_name, read_partitions,
  divides_by_zero,
}
use distributed_systems_engi.MapReduce.WordCount.{wc_map, wc_reduce, All-map}
use distributed_systems_engi.MapReduce.Reference.{reference}
use distributed_systems_engi.MapReduce.Samples.{coder, coder-IsCoder, fields, fields-All}
use distributed_systems_engi.MapReduce.Master.{
  mapping, reducing, do_job, job_of, Call, Phase, start_phase, take_at, Event, registered, assigned,
  returned, received, step, register, assign, start_call, call_worker, receive,
}
use distributed_systems_engi.MapReduce.Master.Bound.{run, moves, losses, run-bounded}
use distributed_systems_engi.MapReduce.Master.Parallel.{
  Runs, here, worked, lost, joined, gave, heard,
}
use distributed_systems_engi.MapReduce.Master.Output.{map_owner, reduce_owner, phases-reference}

abbrev w : Str
w = codes "w"

-- Worker w fails with the first of two jobs, and worker x does both.
abbrev events : List Event
events =
    registered w
    ∷ assigned 0
    ∷ returned 0 false
    ∷ registered (codes "x")
    ∷ assigned 0
    ∷ returned 0 true
    ∷ received
    ∷ assigned 0
    ∷ []

abbrev reached : Phase
reached = record {
  n_cur = 2;
  successes = 0;
  failed = none;
  calls = record { worker = codes "x"; job_number = 0 } ∷ [];
  reports =
      record { worker_name = codes "x"; job_method = mapping; job_num = 1; is_success = true } ∷ [];
  waiting = [];
}

reaches : run mapping 2 events (start_phase []) ≡ some reached
unfolding run step start_phase take_at register assign start_call call_worker receive
reaches = refl

run-bounded_example : moves events ≤ 3 * 2 + 3 * losses events
run-bounded_example = run-bounded mapping 2 [] events reached reaches

abbrev joined_phase : Phase
joined_phase = record {
  n_cur = 0;
  successes = 0;
  failed = none;
  calls = [];
  reports = [];
  waiting = w ∷ [];
}

joins : run mapping 2 (registered w ∷ []) (start_phase []) ≡ some joined_phase
unfolding run step start_phase register
joins = refl

abbrev pub text : Str
text = codes "to be\n"

abbrev pub files : Files
files = (codes "in", text) ∷ []

abbrev pub split_files : Files
split_files = or_zero [] (split_file 1 (codes "in") files)

abbrev pub map_job : ℕ → Files → Option Files
map_job = job_of coder (wc_map fields) wc_reduce (codes "in") mapping 1

abbrev pub reduce_job : ℕ → Files → Option Files
reduce_job = job_of coder (wc_map fields) wc_reduce (codes "in") reducing 1

abbrev pub worker : Str → Call
worker name = record { worker = name; job_number = 0 }

abbrev pub mapped_files : Files
mapped_files = or_zero [] (map_job 0 split_files)

abbrev pub reduced_files : Files
reduced_files = or_zero [] (reduce_job 0 mapped_files)

abbrev pub done_phase : List Str → Phase
done_phase ws = record {
  n_cur = 1;
  successes = 1;
  failed = none;
  calls = [];
  reports = [];
  waiting = ws;
}

pub or_zero-some : (o : Option Files) → is_some o ≡ true → o ≡ some (or_zero [] o)
or_zero-some none e = cc
or_zero-some (some fs) e = refl

pub split_ran : split_file 1 (codes "in") files ≡ some split_files
split_ran =
    or_zero-some (split_file 1 (codes "in") files) (unfold split_file lookup beq_str in refl)

map_ran : map_job 0 split_files ≡ some mapped_files
map_ran = or_zero-some (map_job 0 split_files) (
    unfold do_job divides_by_zero wc_map do_map split_file write_splits split_text split_lines
      scan_lines scan_pieces split drop_cr insert map_name itoa lookup beq_str in
    refl)

reduce_ran : reduce_job 0 mapped_files ≡ some reduced_files
reduce_ran = or_zero-some (reduce_job 0 mapped_files) (
    unfold do_job divides_by_zero wc_map do_map do_reduce read_partitions write_partitions
      split_file write_splits split_text split_lines scan_lines scan_pieces split drop_cr insert
      map_name reduce_name itoa lookup beq_str in
    refl)

-- The worker w fails with the map job, and x does it.
pub mapped :
    Runs mapping 1
      (codes "in")
      map_owner
      map_job
      (start_phase [])
      split_files
      (done_phase (codes "x" ∷ []))
      mapped_files
unfolding step start_phase take_at register assign start_call call_worker receive
mapped = joined w refl (
    gave 0 refl (
      lost 0 (worker w, []) refl refl (λ a ha ne. refl)
        (heard refl (
          joined (codes "x") refl (
            gave 0 refl (worked 0 (worker (codes "x"), []) refl refl map_ran (heard refl here)))))))

pub reduced :
    Runs reducing 1
      (codes "in")
      reduce_owner
      reduce_job
      (start_phase (codes "x" ∷ []))
      mapped_files
      (done_phase (codes "x" ∷ []))
      reduced_files
unfolding step start_phase take_at register assign start_call call_worker receive
reduced = gave 0 refl (worked 0 (worker (codes "x"), []) refl refl reduce_ran (heard refl here))

phases-reference_example :
    (fs' : Files) × (merge coder (codes "in") 1 reduced_files ≡ some fs')
    × (lookup (out_name (codes "in")) fs'
        ≡ some (reference (wc_map fields) wc_reduce (split_text 1 text)))
phases-reference_example =
    phases-reference coder (Lacks 0) coder-IsCoder (wc_map fields) wc_reduce
      (λ s. unfold wc_map in All-map (Lacks 0) (fields s) (omega arith, tt) (fields-All s))
      (λ k vs. unfold wc_reduce in itoa-Lacks 0 (length vs) (omega arith)) (codes "in") 1 1
      (omega arith) (omega arith) text files split_files mapped_files reduced_files []
      (codes "x" ∷ []) (done_phase (codes "x" ∷ [])) (done_phase (codes "x" ∷ [])) (omega arith)
      (omega arith) (unfold lookup beq_str in refl)
      (unfold split_text split_lines scan_lines scan_pieces split drop_cr beq_str in refl) split_ran
      mapped refl reduced refl
