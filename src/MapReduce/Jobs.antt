-- ===== src/MapReduce/Jobs.antt =====
-- What the jobs of src/mapreduce/mapreduce.go read and write, and `Merge` against the description of
-- its output.
use mathlib.Core.Path.{subst}
use native.Mathlib.Nat.{mod-lt}
use distributed_systems_engi.Base.{
  keys_of, elem-keys_of, ℕ, zero, suc, ◌+◌, ◌%◌, ◌<◌, ◌≤◌, ◌≡◌, refl, sym, ap, ◌∙◌, inl, inr, Bool,
  true, ◌&&◌, none, some, List, [], ◌∷◌, ◌++◌, arith, ltb, leb, ◌==◌, ==-iff, ==-self, Str, str_eq,
  codes, Map, or_zero, lookup, insert, if◌then◌else◌, Bool-cases, elem, Distinct, sort_strings,
  sort_strings_unique, elem-sort_strings, All, All-append, length, get_elem?, max_int, max_uint32,
  ℕ_discrete,
}
use distributed_systems_engi.MapReduce.{
  KeyValue, Json, Files, partition, ihash, group, reduce_keys, insert_all, encode_all, merge_name,
  out_name, read_partitions, do_reduce, read_results, print_keys, merge, run_jobs,
}
use distributed_systems_engi.MapReduce.Names.{parts, results, output, lookup-write}
use distributed_systems_engi.MapReduce.Store.{HasParts, run_jobs-step}
use distributed_systems_engi.MapReduce.Grouping.{
  values, has_key, partition-append, All-partition, sorted_keys, elem-sorted_keys,
  insert_all-Distinct, results_of, lookup-results_of,
}
use distributed_systems_engi.MapReduce.Reference.{
  IsCoder, distinct_keys, report, all_pairs, reference, elem-distinct_keys, distinct_keys-Distinct,
}
use distributed_systems_engi.MapReduce.Inputs.{get_elem?-or_zero, chunk_of}

module _ (j : Json) (IsText : Str → Type 0) (coder : IsCoder j IsText)
    (map_fun : Str → List KeyValue) (reduce_fun : Str → List Str → Str)
    (map_texts : (s : Str) → All (λ kv. IsText kv.key × IsText kv.value) (map_fun s))
    (reduce_texts : (k : Str) (vs : List Str) → IsText (reduce_fun k vs)) (file : Str) (nreduce : ℕ)
    (hr : nreduce ≤ max_uint32) where
  abbrev pub IsPair : KeyValue → Type 0
  IsPair kv = IsText kv.key × IsText kv.value

  -- The pairs of the map jobs from `i` on, `n` of them
  pub pairs_from : (ℕ → Str) → ℕ → ℕ → List KeyValue
  pairs_from chunk zero i = []
  pairs_from chunk (suc n) i = map_fun (chunk i) ++ pairs_from chunk n (suc i)

  pub pairs_from-All : (chunk : ℕ → Str) (n i : ℕ) → All IsPair (pairs_from chunk n i)
  unfolding pairs_from
  pairs_from-All chunk zero i = tt
  pairs_from-All chunk (suc n) i =
      All-append IsPair (map_fun (chunk i)) (pairs_from chunk n (suc i)) (map_texts (chunk i))
        (pairs_from-All chunk n (suc i))

  read_partitions_lem :
      (chunk : ℕ → Str) (s n i : ℕ) (fs : Files)
      → s < nreduce
      → HasParts j map_fun file nreduce i n chunk fs
      → read_partitions j s file n i fs ≡ some (partition nreduce s (pairs_from chunk n i))
  unfolding read_partitions pairs_from
  read_partitions_lem chunk s zero i fs hs h = unfold partition in refl
  read_partitions_lem chunk s (suc n) i fs hs h =
      let mine = partition nreduce s (map_fun (chunk i)) in
      let found = h i s (omega arith) (omega arith) hs in
      let read =
        coder.decode-encode mine
          (All-partition nreduce s IsPair (map_fun (chunk i)) (map_texts (chunk i))) in
      let rest =
        read_partitions_lem chunk s n (suc i) fs hs
          (λ k r lo hi. h k r (omega arith) (omega arith)) in
      let app = partition-append nreduce s (map_fun (chunk i)) (pairs_from chunk n (suc i)) in
      ground (arith, found, read, rest, app)

  has_key-IsText :
      (k : Str) (kvs : List KeyValue) → All IsPair kvs → has_key k kvs ≡ true → IsText k
  unfolding has_key
  has_key-IsText k [] h e = cc
  has_key-IsText k (kv ∷ kvs) h e = elim (Bool-cases (kv.key == k)) [
    | inl same ↦ subst IsText ((==-iff kv.key k).0 same) (h.0).0
    | inr other ↦ has_key-IsText k kvs h.1 (ground (arith, e, other))
  ]

  reduce_keys-All :
      (ks : List Str) (kvs : Map Str (List Str))
      → ((k : Str) → elem k ks ≡ true → IsText k)
      → All IsPair (reduce_keys j reduce_fun ks kvs)
  unfolding reduce_keys elem
  reduce_keys-All [] kvs h = tt
  reduce_keys-All (k ∷ ks) kvs h = (
    (h k (ground (arith, ==-self k)), reduce_texts k _),
    reduce_keys-All ks kvs (λ l e. h l (ground (arith, e))),
  )

  results_of-All :
      (r : ℕ) (kvs : List KeyValue)
      → All IsPair kvs
      → All IsPair (results_of j reduce_fun nreduce r kvs)
  results_of-All r kvs h =
      let mine = partition nreduce r kvs in
      reduce_keys-All (sorted_keys mine) (group mine []) (λ k e.
        has_key-IsText k mine (All-partition nreduce r IsPair kvs h)
          (sym (elem-sorted_keys k mine) ∙ e))

  -- What the reduce jobs from `r` on, `n` of them, have written for these pairs
  abbrev pub HasResults : ℕ → ℕ → List KeyValue → Files → Type 0
  HasResults r n kvs fs =
      (k : ℕ)
      → r ≤ k
      → k < r + n
      → lookup (merge_name file k) fs ≡ some (encode_all j (results_of j reduce_fun nreduce k kvs))

  module _ (chunk : ℕ → Str) (nmap : ℕ) (hm : nmap ≤ max_int) where
    pub do_reduce_lem :
        (r : ℕ) (fs : Files)
        → r < nreduce
        → HasParts j map_fun file nreduce 0 nmap chunk fs
        → do_reduce j reduce_fun r file nmap fs
          ≡ some (
              insert
                (merge_name file r)
                (encode_all j (results_of j reduce_fun nreduce r (pairs_from chunk nmap 0)))
                fs)
    unfolding do_reduce
    do_reduce_lem r fs lt h = rw (read_partitions_lem chunk r nmap 0 fs lt h)

    pub run_jobs-HasResults :
        (n r : ℕ) (fs : Files)
        → r + n ≤ nreduce
        → HasParts j map_fun file nreduce 0 nmap chunk fs
        → (fs' : Files) × (run_jobs (λ k. do_reduce j reduce_fun k file nmap) n r fs ≡ some fs')
          × HasResults r n (pairs_from chunk nmap 0) fs'
          × ((k : ℕ) → k < r → lookup (merge_name file k) fs' ≡ lookup (merge_name file k) fs)
    unfolding run_jobs
    run_jobs-HasResults zero r fs le h = (fs, refl, λ k lo hi. absurd (omega arith), λ k lt. refl)
    run_jobs-HasResults (suc n) r fs le h =
        let text = encode_all j (results_of j reduce_fun nreduce r (pairs_from chunk nmap 0)) in
        let fs1 = insert (merge_name file r) text fs in
        let kept : HasParts j map_fun file nreduce 0 nmap chunk fs1 = λ k s lo hi hs.
          lookup-write file (results r) (parts k s) text fs (omega arith) (omega arith, omega arith)
          ∙ h k s lo hi hs in
        let (fs', ran, later, before) = run_jobs-HasResults n (suc r) fs1 (omega arith) kept in
        (
          fs',
          run_jobs-step (λ k. do_reduce j reduce_fun k file nmap) n r fs fs1 fs'
              (do_reduce_lem r fs (omega arith) h) ran,
          λ k lo hi. elim (ℕ_discrete r k) [
            | yes e ↦
                subst
                  (λ x.
                    lookup (merge_name file x) fs'
                    ≡ some (
                        encode_all j (results_of j reduce_fun nreduce x (pairs_from chunk nmap 0))))
                  e
                  (before r (omega arith)
                    ∙ lookup-write file (results r) (results r) text fs (omega arith) (omega arith)
                    ∙ ground arith)
            | no ne ↦ later k (omega arith) (omega arith)
          ],
          λ k lt.
              before k (omega arith)
              ∙ lookup-write file (results r) (results k) text fs (omega arith) (omega arith)
              ∙ ground arith,
        )

  -- The reduce job of the key is one from `r` on, below `r + n`.
  abbrev in_jobs : ℕ → ℕ → Str → Bool
  in_jobs r n k = leb r (ihash k % nreduce) && ltb (ihash k % nreduce) (r + n)

  read_results_lem :
      (kvs : List KeyValue) (n r : ℕ) (fs : Files) (m : Map Str Str)
      → r + n ≤ nreduce
      → All IsPair kvs
      → HasResults r n kvs fs
      → Distinct (keys_of m)
      → (m' : Map Str Str) × (read_results j file n r fs m ≡ some m')
        × Distinct (keys_of m')
        × ((k : Str)
            → lookup k m' ≡ (
                if in_jobs r n k && has_key k kvs
                then some (reduce_fun k (values k kvs))
                else lookup k m))
  unfolding read_results
  read_results_lem kvs zero r fs m le ok h d = (m, refl, d, λ k. ground arith)
  read_results_lem kvs (suc n) r fs m le ok h d =
      let mine = results_of j reduce_fun nreduce r kvs in
      let found = h r (omega arith) (omega arith) in
      let read = coder.decode-encode mine (results_of-All r kvs ok) in
      let (m', ran, d', sees) =
        read_results_lem kvs n (suc r) fs (insert_all mine m) (omega arith) ok
          (λ k lo hi. h k (omega arith) (omega arith)) (insert_all-Distinct mine m d) in
      (
        m',
        ground (arith, found, read, ran),
        d',
        λ k.
            sees k
            ∙ ground (arith, lookup-results_of j reduce_fun nreduce r k kvs m hr (omega arith)),
      )

  print_keys-report :
      (result : Str → Str) (ks : List Str) (m : Map Str Str)
      → ((k : Str) → elem k ks ≡ true → lookup k m ≡ some (result k))
      → print_keys ks m ≡ report result ks
  unfolding print_keys report elem
  print_keys-report result [] m h = refl
  print_keys-report result (k ∷ ks) m h =
      let found = h k (ground (arith, ==-self k)) in
      ap (λ o. k ++ codes ": " ++ or_zero [] o ++ codes "\n" ++ print_keys ks m) found
      ∙ ap (λ s. k ++ codes ": " ++ result k ++ codes "\n" ++ s)
          (print_keys-report result ks m (λ l e. h l (ground (arith, e))))

  pub merge_lem :
      (kvs : List KeyValue) (fs : Files)
      → 0 < nreduce
      → All IsPair kvs
      → HasResults 0 nreduce kvs fs
      → (fs' : Files) × (merge j file nreduce fs ≡ some fs')
        × (lookup (out_name file) fs'
            ≡ some (report (λ k. reduce_fun k (values k kvs)) (sort_strings (distinct_keys kvs))))
  unfolding merge
  merge_lem kvs fs pos' ok h =
      let (m, ran, d, sees) =
        read_results_lem kvs nreduce 0 fs [] (omega arith) ok h (unfold keys_of in tt) in
      let result = λ (k : Str). reduce_fun k (values k kvs) in
      let has : (k : Str) → lookup k m ≡ (if has_key k kvs then some (result k) else none) =
        λ k. sees k ∙ unfold lookup in ground (arith, mod-lt (ihash k) pos') in
      let keys : sort_strings (keys_of m) ≡ sort_strings (distinct_keys kvs) =
        sort_strings_unique (keys_of m) (distinct_keys kvs) d (distinct_keys-Distinct kvs)
          (λ k. elem-keys_of k m ∙ ground (arith, has k, elem-distinct_keys k kvs)) in
      let text =
        print_keys-report result (sort_strings (keys_of m)) m
          (λ k e. ground (arith, has k, e, elem-sort_strings k (keys_of m), elem-keys_of k m)) in
      let out = print_keys (sort_strings (keys_of m)) m in
      (
        insert (out_name file) out fs,
        rw ran refl,
        lookup-write file output output out fs tt tt ∙ ap some (text ∙ ap (report result) keys),
      )

  pub pairs_from-texts :
      (texts : List Str) (i : ℕ) (chunk : ℕ → Str)
      → ((k : ℕ) → k < length texts → get_elem? texts k ≡ some (chunk (i + k)))
      → pairs_from chunk (length texts) i ≡ all_pairs map_fun texts
  unfolding pairs_from all_pairs
  pairs_from-texts [] i chunk h = refl
  pairs_from-texts (t ∷ texts) i chunk h =
      let here : t ≡ chunk i = ground (arith, h 0) in
      let rest =
        pairs_from-texts texts (suc i) chunk
          (λ k lt. h (suc k) (omega arith) ∙ ap (λ n. some (chunk n)) (omega arith)) in
      ground (arith, here, rest)

  -- `Merge` after the reduce jobs
  pub merge-reference :
      (nmap : ℕ) (texts : List Str) (fs : Files)
      → length texts ≡ nmap
      → 0 < nreduce
      → HasResults 0 nreduce (pairs_from (chunk_of texts) nmap 0) fs
      → (fs' : Files) × (merge j file nreduce fs ≡ some fs')
        × (lookup (out_name file) fs' ≡ some (reference map_fun reduce_fun texts))
  unfolding reference
  merge-reference nmap texts fs count pos' has_results =
      let chunk = chunk_of texts in
      let kvs = pairs_from chunk nmap 0 in
      let (fs', ran, out) = merge_lem kvs fs pos' (pairs_from-All chunk nmap 0) has_results in
      let same : kvs ≡ all_pairs map_fun texts =
        ap (λ n. pairs_from chunk n 0) (sym count)
        ∙ pairs_from-texts texts 0 chunk
            (λ k lt. get_elem?-or_zero texts k lt ∙ ap (λ n. some (chunk n)) (omega arith)) in
      (
        fs',
        ran,
        out
            ∙ ap
                (λ ps.
                  some (report (λ k. reduce_fun k (values k ps)) (sort_strings (distinct_keys ps))))
                same,
      )
