-- ===== src/MapReduce/Master/Output.antt =====
-- `Run` of src/mapreduce/mapreduce.go: the phases of map jobs and of reduce jobs, and `Merge`, on
-- files that the workers share.
use distributed_systems_engi.Base.{
  insert, ℕ, ◌<◌, ◌≤◌, ◌≡◌, ◌≢◌, refl, ap, ◌∙◌, Option, none, some, List, arith, Str, str_eq,
  lookup, length, max_int, max_uint32, All, if◌then◌else◌, false, ℕ_discrete,
}
use distributed_systems_engi.MapReduce.{
  KeyValue, Json, Files, encode_all, partition, reduce_name, merge_name, out_name, split_text,
  split_file, do_map, write_partitions, merge,
}
use distributed_systems_engi.MapReduce.Names.{
  Name, splits, parts, results, output, name_of, eq_name, lookup-write,
}
use distributed_systems_engi.MapReduce.Store.{
  HasSplits, HasParts, is_part, lookup-write_partitions, divides_by_zero-small,
}
use distributed_systems_engi.MapReduce.Reference.{IsCoder, reference}
use distributed_systems_engi.MapReduce.Inputs.{chunk_of, split_file-lookup}
use distributed_systems_engi.MapReduce.Jobs.{pairs_from, do_reduce_lem, merge-reference}
use distributed_systems_engi.MapReduce.Grouping.{results_of}
use distributed_systems_engi.MapReduce.Master.{
  mapping, reducing, do_job, job_of, Phase, start_phase,
}
use distributed_systems_engi.MapReduce.Master.Parallel.{IsPhaseOfJobs, Runs, runs-all}

abbrev pub map_owner : Name → Option ℕ
map_owner (parts k r) = some k
map_owner _ = none

abbrev pub reduce_owner : Name → Option ℕ
reduce_owner (results r) = some r
reduce_owner _ = none

is_part-owner :
    (k n : ℕ) (a : Name) (o o' : Option Str)
    → map_owner a ≢ some k
    → (if is_part k 0 n a then o else o') ≡ o'
is_part-owner k n (splits i) o o' h = refl
is_part-owner k n (parts i s) o o' h = elim (ℕ_discrete i k) [
  | yes e ↦ absurd (h (ap some e))
  | no ne ↦ ground arith
]
is_part-owner k n (results r) o o' h = refl
is_part-owner k n output o o' h = refl

eq_name-owner : (k : ℕ) (a : Name) → reduce_owner a ≢ some k → eq_name (results k) a ≡ false
eq_name-owner k (splits i) h = refl
eq_name-owner k (parts i s) h = refl
eq_name-owner k (results r) h = elim (ℕ_discrete r k) [
  | yes e ↦ absurd (h (ap some e))
  | no ne ↦ ground arith
]
eq_name-owner k output h = refl

module _ (j : Json) (IsText : Str → Type 0) (coder : IsCoder j IsText)
    (map_fun : Str → List KeyValue) (reduce_fun : Str → List Str → Str)
    (map_texts : (s : Str) → All (λ kv. IsText kv.key × IsText kv.value) (map_fun s))
    (reduce_texts : (k : Str) (vs : List Str) → IsText (reduce_fun k vs)) (file : Str)
    (nmap nreduce : ℕ) (hm : nmap ≤ max_int) (hr : nreduce ≤ max_uint32) where
  abbrev MapWrote : (ℕ → Str) → ℕ → Files → Type 0
  MapWrote chunk k fs =
      (s : ℕ)
      → s < nreduce
      → lookup (reduce_name file k s) fs
        ≡ some (encode_all j (partition nreduce s (map_fun (chunk k))))

  map_job_lem :
      (chunk : ℕ → Str) (k : ℕ) (fs fs' : Files)
      → k < nmap
      → HasSplits j map_fun file nreduce 0 nmap chunk fs
      → job_of j map_fun reduce_fun file mapping nreduce k fs ≡ some fs'
      → fs' ≡ write_partitions j map_fun k file nreduce nreduce 0 (map_fun (chunk k)) fs
  unfolding do_job do_map
  map_job_lem chunk k fs fs' lt has e = ground (
    arith,
    e,
    has k (omega arith) (omega arith),
    divides_by_zero-small j map_fun file nreduce (map_fun (chunk k)) hr,
  )

  map_jobs :
      (chunk : ℕ → Str)
      → IsPhaseOfJobs nmap file map_owner (job_of j map_fun reduce_fun file mapping nreduce)
  map_jobs chunk = record {
    Ready = HasSplits j map_fun file nreduce 0 nmap chunk;
    Wrote = MapWrote chunk;
    keeps-Ready =
        λ k fs fs' keeps has i lo hi. keeps (splits i) (omega arith) (λ e. cc e) ∙ has i lo hi;
    keeps-Wrote = λ k m fs fs' ne lt keeps wrote s ls.
        keeps (parts m s) (omega arith, omega arith) (λ e. ne (ground (arith, e))) ∙ wrote s ls;
    run_job-Wrote = λ k fs fs' lt has e s ls.
        ap (lookup (reduce_name file k s)) (map_job_lem chunk k fs fs' lt has e)
        ∙ lookup-write_partitions j map_fun file nreduce k nreduce 0 (map_fun (chunk k)) fs
            (parts k s) (omega arith, omega arith) (omega arith) (omega arith)
        ∙ ground arith;
    run_job-keeps = λ k fs fs' lt has e a ha other.
        ap (lookup (name_of file a)) (map_job_lem chunk k fs fs' lt has e)
        ∙ lookup-write_partitions j map_fun file nreduce k nreduce 0 (map_fun (chunk k)) fs a ha
            (omega arith) (omega arith)
        ∙ is_part-owner k nreduce a _ _ other;
  }

  -- The text that a reduce job writes
  abbrev result_text : (ℕ → Str) → ℕ → Str
  result_text chunk k = encode_all j (
      results_of j reduce_fun nreduce k (
        pairs_from j IsText coder map_fun reduce_fun map_texts reduce_texts file nreduce hr chunk
          nmap 0))

  reduce_job_lem :
      (chunk : ℕ → Str) (k : ℕ) (fs fs' : Files)
      → k < nreduce
      → HasParts j map_fun file nreduce 0 nmap chunk fs
      → job_of j map_fun reduce_fun file reducing nmap k fs ≡ some fs'
      → fs' ≡ insert (merge_name file k) (result_text chunk k) fs
  unfolding do_job
  reduce_job_lem chunk k fs fs' lt has e =
      let did =
        do_reduce_lem j IsText coder map_fun reduce_fun map_texts reduce_texts file nreduce hr chunk
          nmap hm k fs lt has in
      ground (arith, e, did)

  reduce_jobs :
      (chunk : ℕ → Str)
      → IsPhaseOfJobs nreduce file reduce_owner (job_of j map_fun reduce_fun file reducing nmap)
  reduce_jobs chunk = record {
    Ready = HasParts j map_fun file nreduce 0 nmap chunk;
    Wrote = λ k fs. lookup (merge_name file k) fs ≡ some (result_text chunk k);
    keeps-Ready = λ k fs fs' keeps has i s lo hi ls.
        keeps (parts i s) (omega arith, omega arith) (λ e. cc e) ∙ has i s lo hi ls;
    keeps-Wrote = λ k m fs fs' ne lt keeps wrote.
        keeps (results m) (omega arith) (λ e. ne (ground (arith, e))) ∙ wrote;
    run_job-Wrote = λ k fs fs' lt has e.
        ap (lookup (merge_name file k)) (reduce_job_lem chunk k fs fs' lt has e)
        ∙ lookup-write file (results k) (results k) (result_text chunk k) fs (omega arith)
            (omega arith)
        ∙ ground arith;
    run_job-keeps = λ k fs fs' lt has e a ha other.
        ap (lookup (name_of file a)) (reduce_job_lem chunk k fs fs' lt has e)
        ∙ lookup-write file (results k) a (result_text chunk k) fs (omega arith) ha
        ∙ rw (eq_name-owner k a other) refl;
  }

  -- `Run`, with an int number of map jobs, a uint32 number of reduce jobs, at least one of each, and a
  -- coder that can carry the pairs of the application: where `Split` makes as many texts as there are map
  -- jobs, a worker whose call failed has stopped, with anything left in the files of its job, and each
  -- phase has had all its successes, in whatever order the workers register, work, reply and fail, `Merge`
  -- ends, and
  -- the output file has a line for each key that Map makes of the texts, in the order of the keys,
  -- with what Reduce makes of all values of the key in order.
  pub phases-reference :
      (text : Str) (fs fs0 fs1 fs2 : Files) (workers1 workers2 : List Str) (p q : Phase)
      → 0 < nmap
      → 0 < nreduce
      → lookup file fs ≡ some text
      → length (split_text nmap text) ≡ nmap
      → split_file nmap file fs ≡ some fs0
      → Runs mapping nmap file map_owner
          (job_of j map_fun reduce_fun file mapping nreduce)
          (start_phase workers1)
          fs0
          p
          fs1
      → p.successes ≡ nmap
      → Runs reducing nreduce file reduce_owner
          (job_of j map_fun reduce_fun file reducing nmap)
          (start_phase workers2)
          fs1
          q
          fs2
      → q.successes ≡ nreduce
      → (fs' : Files) × (merge j file nreduce fs2 ≡ some fs')
        × (lookup (out_name file) fs' ≡ some (reference map_fun reduce_fun (split_text nmap text)))
  unfolding map_jobs reduce_jobs
  phases-reference text fs fs0 fs1 fs2 workers1 workers2 p q some_maps some_reduces found count
        split' mapped p_done reduced q_done =
      let texts = split_text nmap text in
      let chunk = chunk_of texts in
      let has_splits : HasSplits j map_fun file nreduce 0 nmap chunk fs0 = λ k lo lt.
        split_file-lookup nmap file text fs fs0 some_maps hm found count split' k
          (omega (arith, lt)) in
      let has_parts =
        runs-all mapping nmap file map_owner (job_of j map_fun reduce_fun file mapping nreduce)
          (map_jobs chunk) workers1 p fs0 fs1 mapped p_done has_splits in
      let has_results =
        runs-all reducing nreduce file reduce_owner (job_of j map_fun reduce_fun file reducing nmap)
          (reduce_jobs chunk) workers2 q fs1 fs2 reduced q_done
          (λ k s lo hi ls. has_parts k (omega (arith, hi)) s ls) in
      merge-reference j IsText coder map_fun reduce_fun map_texts reduce_texts file nreduce hr nmap
        texts fs2 count some_reduces (λ k lo hi. has_results k (omega (arith, hi)))
