-- ===== src/MapReduce/Sequential.antt =====
-- `RunSingle` of src/mapreduce/mapreduce.go against the description of its output.
use distributed_systems_engi.Base.{
  ℕ, ◌<◌, ◌≤◌, ◌≡◌, some, List, arith, Str, str_eq, lookup, All, length, max_int, max_uint32,
}
use distributed_systems_engi.MapReduce.{
  KeyValue, Json, Files, out_name, split_text, write_splits, run_single,
}
use distributed_systems_engi.MapReduce.Store.{HasSplits, run_jobs-HasParts}
use distributed_systems_engi.MapReduce.Reference.{IsCoder, reference}
use distributed_systems_engi.MapReduce.Inputs.{chunk_of, split_file_lem, split_file-lookup}
use distributed_systems_engi.MapReduce.Jobs.{run_jobs-HasResults, merge-reference}

module _ (j : Json) (IsText : Str → Type 0) (coder : IsCoder j IsText)
    (map_fun : Str → List KeyValue) (reduce_fun : Str → List Str → Str)
    (map_texts : (s : Str) → All (λ kv. IsText kv.key × IsText kv.value) (map_fun s))
    (reduce_texts : (k : Str) (vs : List Str) → IsText (reduce_fun k vs)) (file : Str) (nreduce : ℕ)
    (hr : nreduce ≤ max_uint32) where
  -- `RunSingle`, with an int number of map jobs and a uint32 number of reduce jobs, at least one of each,
  -- and a coder that can carry the pairs of the application: where `Split` makes as many texts as there are map jobs, it ends, and
  -- the output file has a line for each key that Map makes of the texts, in the order of the keys,
  -- with what Reduce makes of all values of the key in order.
  pub run_single-reference :
      (nmap : ℕ) (text : Str) (fs : Files)
      → 0 < nmap
      → nmap ≤ max_int
      → 0 < nreduce
      → lookup file fs ≡ some text
      → length (split_text nmap text) ≡ nmap
      → (fs' : Files) × (run_single j nmap nreduce file map_fun reduce_fun fs ≡ some fs')
        × (lookup (out_name file) fs' ≡ some (reference map_fun reduce_fun (split_text nmap text)))
  unfolding run_single
  run_single-reference nmap text fs some_jobs hm pos' found count =
      let texts = split_text nmap text in
      let fs0 = write_splits file 0 texts fs in
      let split' = split_file_lem nmap file text fs some_jobs found in
      let has_splits : HasSplits j map_fun file nreduce 0 nmap (chunk_of texts) fs0 = λ k lo lt.
        split_file-lookup nmap file text fs fs0 some_jobs hm found count split' k
          (omega (arith, lt)) in
      let (fs1, ran1, has_parts, _) =
        run_jobs-HasParts j map_fun file nreduce (chunk_of texts) nmap 0 fs0 (omega arith) hr
          has_splits in
      let (fs2, ran2, has_results, _) =
        run_jobs-HasResults j IsText coder map_fun reduce_fun map_texts reduce_texts file nreduce hr
          (chunk_of texts) nmap hm nreduce 0 fs1 (omega arith) has_parts in
      let (fs3, ran3, out) =
        merge-reference j IsText coder map_fun reduce_fun map_texts reduce_texts file nreduce hr
          nmap texts fs2 count pos' has_results in
      (fs3, ground (arith, split', ran1, ran2, ran3), out)
