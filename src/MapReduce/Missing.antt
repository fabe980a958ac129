-- ===== src/MapReduce/Missing.antt =====
-- `RunSingle` of src/mapreduce/mapreduce.go where `Split` makes fewer files than there are map jobs.
use distributed_systems_engi.Base.{
  get_elem?, [], ◌∷◌, ℕ, zero, suc, ◌+◌, ◌<◌, ◌≤◌, ◌≡◌, refl, ap, ◌∙◌, none, some, List, arith, Str,
  str_eq, lookup, length, max_int, max_uint32, ℕ_discrete, Option-cases, inl, inr,
}
use distributed_systems_engi.MapReduce.{
  KeyValue, Files, Json, map_name, split_text, write_splits, do_map, write_partitions, run_jobs,
  run_single,
}
use distributed_systems_engi.MapReduce.Names.{splits}
use distributed_systems_engi.MapReduce.Store.{
  lookup-write_splits, lookup-write_partitions, divides_by_zero-small,
}
use distributed_systems_engi.MapReduce.Inputs.{split_file_lem}

get_elem?-length {ℓ} : {A : Type ℓ} (xs : List A) → get_elem? xs (length xs) ≡ none
get_elem?-length [] = refl
get_elem?-length (x ∷ xs) = get_elem?-length xs

module _ (j : Json) (map_fun : Str → List KeyValue) (file : Str) (nreduce : ℕ) where
  -- A map job with no input stops the loop, and no job before it writes the input.
  run_jobs-none :
      (k n i : ℕ) (fs : Files)
      → i ≤ k
      → k < i + n
      → k ≤ max_int
      → nreduce ≤ max_uint32
      → lookup (map_name file k) fs ≡ none
      → run_jobs (λ i. do_map j map_fun i file nreduce) n i fs ≡ none
  unfolding run_jobs do_map
  run_jobs-none k zero i fs lo hi hk hr h = absurd (omega arith)
  run_jobs-none k (suc n) i fs lo hi hk hr h = elim (ℕ_discrete i k) [
    | yes e ↦ let h' = ap (λ m. lookup (map_name file m) fs) e ∙ h in ground (arith, h')
    | no ne ↦ elim (Option-cases (lookup (map_name file i) fs)) [
      | inl e ↦ ground (arith, e)
      | inr (text, e) ↦
          let fs1 = write_partitions j map_fun i file nreduce nreduce 0 (map_fun text) fs in
          let kept =
            lookup-write_partitions j map_fun file nreduce i nreduce 0 (map_fun text) fs (splits k)
              hk (omega arith) (omega arith) in
          let rest = run_jobs-none k n (suc i) fs1 (omega arith) (omega arith) hk hr (kept ∙ h) in
          ground (arith, e, rest, divides_by_zero-small j map_fun file nreduce (map_fun text) hr)
    ]
  ]

  -- `RunSingle` ends in log.Fatal where `Split` makes fewer files than there are map jobs and there is
  -- no old file with the name of the first one that is missing; the numbers of jobs are int and uint32.
  pub run_single-too_few :
      (reduce_fun : Str → List Str → Str) (nmap : ℕ) (text : Str) (fs : Files)
      → nmap ≤ max_int
      → nreduce ≤ max_uint32
      → lookup file fs ≡ some text
      → length (split_text nmap text) < nmap
      → lookup (map_name file (length (split_text nmap text))) fs ≡ none
      → run_single j nmap nreduce file map_fun reduce_fun fs ≡ none
  unfolding run_single
  run_single-too_few reduce_fun nmap text fs hm hr found few missing =
      let texts = split_text nmap text in
      let fs0 = write_splits file 0 texts fs in
      let still : lookup (map_name file (length texts)) fs0 ≡ none =
        lookup-write_splits file 0 texts fs (splits (length texts)) (omega arith) (omega arith)
        ∙ ground (arith, get_elem?-length texts, missing) in
      ground (
        arith,
        split_file_lem nmap file text fs (omega arith) found,
        run_jobs-none (length texts) nmap 0 fs0 (omega arith) (omega arith) (omega arith) hr still,
      )
