-- ===== src/MapReduce/Master/RunTests.antt =====
-- A whole job, a worker that is told to take two connections, and one that is shut down.
use distributed_systems_engi.Base.{
  ◌≡◌, refl, true, false, some, none, [], ◌∷◌, codes, pos, negsuc, split, itoa, lookup, insert,
  str_eq, beq_str, or_zero,
}
use distributed_systems_engi.MapReduce.{
  divides_by_zero, Files, split_text, split_file, split_lines, scan_lines, scan_pieces, drop_cr,
  write_splits, map_name, merge, merge_name, do_map, do_reduce, write_partitions, reduce_name,
  read_partitions, read_results,
}
use distributed_systems_engi.MapReduce.WordCount.{wc_map, wc_reduce}
use distributed_systems_engi.MapReduce.Samples.{coder, fields}
use distributed_systems_engi.MapReduce.Worker.{
  run_worker, connected, accept_failed, steps, Budget, steps-Budget, Worker, accept, step,
  shut_down,
}
use distributed_systems_engi.MapReduce.Worker
use distributed_systems_engi.MapReduce.Lifecycle.{
  MapReduce, init_map_reduce, cleanup_registration, shutdown, kill_workers, kill_each, Run,
}
use distributed_systems_engi.MapReduce.Master.{do_job}
use distributed_systems_engi.MapReduce.Master.Tests.{
  files, split_files, mapped_files, reduced_files, done_phase, split_ran, mapped, reduced,
  or_zero-some,
}

abbrev merged_files : Files
merged_files = or_zero [] (merge coder (codes "in") 1 reduced_files)

merge_ran : merge coder (codes "in") 1 reduced_files ≡ some merged_files
merge_ran = or_zero-some (merge coder (codes "in") 1 reduced_files) (
    unfold divides_by_zero wc_map merge read_results merge_name do_job do_map do_reduce
      read_partitions write_partitions split_file write_splits split_text split_lines scan_lines
      scan_pieces split drop_cr insert map_name reduce_name itoa lookup beq_str in
    refl)

abbrev ended : MapReduce
ended = record {
  n_map = 1;
  n_reduce = 1;
  file = codes "in";
  master_address = codes "m";
  alive = false;
  stats = some [];
  workers = [];
  n_cur_map = 1;
  n_cur_reduce = 1;
}

ran :
    Run coder
      (wc_map fields)
      wc_reduce
      (λ w. none)
      (init_map_reduce 1 1 (codes "in") (codes "m"))
      files
      ended
      merged_files
unfolding init_map_reduce cleanup_registration shutdown kill_workers kill_each
ran = record {
  workers = [];
  fs0 = split_files;
  fs1 = mapped_files;
  fs2 = reduced_files;
  p = done_phase (codes "x" ∷ []);
  q = done_phase (codes "x" ∷ []);
  ok = true;
  split' = split_ran;
  mapped = mapped;
  all_mapped = refl;
  reduced = reduced;
  all_reduced = refl;
  merged = merge_ran;
  ended = refl;
}

steps-Budget_example :
    Budget 2 (steps (connected ∷ connected ∷ connected ∷ []) (run_worker (codes "w") (pos 2)))
steps-Budget_example = steps-Budget 2 (codes "w") (connected ∷ connected ∷ connected ∷ []) tt

abbrev idle_worker : Worker
idle_worker = run_worker (codes "w") (negsuc 0)

-- After `Shutdown` the worker takes one connection more.
lingers :
    ((step shut_down idle_worker).listening ≡ true)
    × ((steps (shut_down ∷ connected ∷ []) idle_worker).listening ≡ false)
unfolding step steps accept Worker.shutdown
lingers = (refl, refl)
