-- ===== src/MapReduce/Cleanup.antt =====
-- `CleanupFiles` of src/mapreduce/mapreduce.go: which files it removes, and that it ends where they are
-- all there.
use distributed_systems_engi.Base.{
  ℕ, zero, suc, ◌+◌, ◌≤◌, ◌≡◌, ◌≢◌, refl, Bool, true, false, ◌&&◌, ◌||◌, Option, none, some, arith,
  eqb, ltb, Str, str_eq, lookup, if◌then◌else◌, max_int, leb,
}
use distributed_systems_engi.MapReduce.{
  Files, map_name, reduce_name, merge_name, out_name, run_jobs, remove_file, cleanup_files, ◌>>=◌,
}
use distributed_systems_engi.MapReduce.Names.{
  Name, splits, parts, results, output, name_of, IsSmall, eq_name,
}
use distributed_systems_engi.MapReduce.Removing.{
  IsThere, Removes, Removes-same, remove_file-Removes, seq-Removes, any, run_jobs-Removes,
}

-- The files that `CleanupFiles` removes for map job `i`, and in all
abbrev pub of_map : ℕ → ℕ → Name → Bool
of_map nreduce i (splits k) = eqb i k
of_map nreduce i (parts k r) = eqb i k && ltb r nreduce
of_map nreduce i _ = false

abbrev pub is_file_of : ℕ → ℕ → Name → Bool
is_file_of nmap nreduce (splits i) = ltb i nmap
is_file_of nmap nreduce (parts i r) = ltb i nmap && ltb r nreduce
is_file_of nmap nreduce (results r) = ltb r nreduce
is_file_of nmap nreduce output = true

any-parts :
    (i n lo : ℕ) (a : Name)
    → any (λ r. eq_name (parts i r)) n lo a ≡ elim a [
      | splits k ↦ false
      | parts k r ↦ eqb i k && (leb lo r && ltb r (lo + n))
      | results r ↦ false
      | output ↦ false
    ]
any-parts i zero lo (splits k) = refl
any-parts i zero lo (parts k r) = ground arith
any-parts i zero lo (results r) = refl
any-parts i zero lo output = refl
any-parts i (suc n) lo (splits k) = any-parts i n (suc lo) (splits k)
any-parts i (suc n) lo (parts k r) = ground (arith, any-parts i n (suc lo) (parts k r))
any-parts i (suc n) lo (results r) = any-parts i n (suc lo) (results r)
any-parts i (suc n) lo output = any-parts i n (suc lo) output

any-results :
    (n lo : ℕ) (a : Name)
    → any (λ r. eq_name (results r)) n lo a ≡ elim a [
      | splits k ↦ false
      | parts k r ↦ false
      | results r ↦ leb lo r && ltb r (lo + n)
      | output ↦ false
    ]
any-results zero lo (splits k) = refl
any-results zero lo (parts k r) = refl
any-results zero lo (results r) = ground arith
any-results zero lo output = refl
any-results (suc n) lo (splits k) = any-results n (suc lo) (splits k)
any-results (suc n) lo (parts k r) = any-results n (suc lo) (parts k r)
any-results (suc n) lo (results r) = ground (arith, any-results n (suc lo) (results r))
any-results (suc n) lo output = any-results n (suc lo) output

any-of_map :
    (nreduce n lo : ℕ) (a : Name)
    → any (of_map nreduce) n lo a ≡ elim a [
      | splits k ↦ leb lo k && ltb k (lo + n)
      | parts k r ↦ leb lo k && (ltb k (lo + n) && ltb r nreduce)
      | results r ↦ false
      | output ↦ false
    ]
any-of_map nreduce zero lo (splits k) = ground arith
any-of_map nreduce zero lo (parts k r) = ground arith
any-of_map nreduce zero lo (results r) = refl
any-of_map nreduce zero lo output = refl
any-of_map nreduce (suc n) lo (splits k) = ground (arith, any-of_map nreduce n (suc lo) (splits k))
any-of_map nreduce (suc n) lo (parts k r) =
    ground (arith, any-of_map nreduce n (suc lo) (parts k r))
any-of_map nreduce (suc n) lo (results r) = any-of_map nreduce n (suc lo) (results r)
any-of_map nreduce (suc n) lo output = any-of_map nreduce n (suc lo) output

module _ (file : Str) where
  module _ (nmap nreduce : ℕ) (hm : nmap ≤ max_int) (hr : nreduce ≤ max_int) where
    -- The names of one job are apart, and so are those of different jobs.
    parts-apart :
        (i : ℕ) (a : Name) (j m : ℕ)
        → j ≢ m
        → eq_name (parts i j) a ≡ true
        → eq_name (parts i m) a ≡ false
    parts-apart i (parts k r) j m ne g = ground (arith, ne)
    parts-apart i (splits k) j m ne g = refl
    parts-apart i (results r) j m ne g = refl
    parts-apart i output j m ne g = refl

    results-apart :
        (a : Name) (j m : ℕ) → j ≢ m → eq_name (results j) a ≡ true → eq_name (results m) a ≡ false
    results-apart (results r) j m ne g = ground (arith, ne)
    results-apart (splits k) j m ne g = refl
    results-apart (parts k r) j m ne g = refl
    results-apart output j m ne g = refl

    of_map-apart :
        (a : Name) (j m : ℕ) → j ≢ m → of_map nreduce j a ≡ true → of_map nreduce m a ≡ false
    of_map-apart (splits k) j m ne g = ground (arith, ne)
    of_map-apart (parts k r) j m ne g = ground (arith, ne)
    of_map-apart (results r) j m ne g = refl
    of_map-apart output j m ne g = refl

    map_job : ℕ → Files → Option Files
    map_job i fs =
        remove_file (map_name file i) fs
        >>= run_jobs (λ r. remove_file (reduce_name file i r)) nreduce 0

    of_map-Removes : (i : ℕ) → i ≤ max_int → Removes file (of_map nreduce i) (map_job i)
    unfolding map_job
    of_map-Removes i hi =
        Removes-same (same i) (λ fs. refl)
          (seq-Removes file (eq_name (splits i)) (any (λ r. eq_name (parts i r)) nreduce 0)
            (remove_file (map_name file i))
            (run_jobs (λ r. remove_file (reduce_name file i r)) nreduce 0) (apart i)
            (remove_file-Removes file (splits i) hi)
            (run_jobs-Removes file (λ r. eq_name (parts i r))
              (λ r. remove_file (reduce_name file i r)) (parts-apart i) nreduce 0
              (λ r lt. remove_file-Removes file (parts i r) (hi, omega arith))))
      where
        same :
            (i : ℕ) (a : Name)
            → of_map nreduce i a
              ≡ (eq_name (splits i) a || any (λ r. eq_name (parts i r)) nreduce 0 a)
        same i (splits k) = ground (arith, any-parts i nreduce 0 (splits k))
        same i (parts k r) = ground (arith, any-parts i nreduce 0 (parts k r))
        same i (results r) = ground (arith, any-parts i nreduce 0 (results r))
        same i output = ground (arith, any-parts i nreduce 0 output)

        apart :
            (i : ℕ) (a : Name)
            → eq_name (splits i) a ≡ true
            → any (λ r. eq_name (parts i r)) nreduce 0 a ≡ false
        apart i (splits k) g = any-parts i nreduce 0 (splits k)
        apart i (parts k r) g = cc
        apart i (results r) g = cc
        apart i output g = cc

    maps_gone : Name → Bool
    maps_gone = any (of_map nreduce) nmap 0

    results_gone : Name → Bool
    results_gone = any (λ r. eq_name (results r)) nreduce 0

    all_gone :
        (a : Name)
        → is_file_of nmap nreduce a ≡ (maps_gone a || (results_gone a || eq_name output a))
    unfolding maps_gone results_gone
    all_gone (splits k) =
        ground (arith, any-of_map nreduce nmap 0 (splits k), any-results nreduce 0 (splits k))
    all_gone (parts k r) =
        ground (arith, any-of_map nreduce nmap 0 (parts k r), any-results nreduce 0 (parts k r))
    all_gone (results r) =
        ground (arith, any-of_map nreduce nmap 0 (results r), any-results nreduce 0 (results r))
    all_gone output = ground (arith, any-of_map nreduce nmap 0 output, any-results nreduce 0 output)

    maps-apart : (a : Name) → maps_gone a ≡ true → (results_gone a || eq_name output a) ≡ false
    unfolding maps_gone results_gone
    maps-apart (splits k) g = ground (arith, any-results nreduce 0 (splits k))
    maps-apart (parts k r) g = ground (arith, any-results nreduce 0 (parts k r))
    maps-apart (results r) g = absurd (ground (arith, g, any-of_map nreduce nmap 0 (results r)))
    maps-apart output g = absurd (ground (arith, g, any-of_map nreduce nmap 0 output))

    results_gone-apart : (a : Name) → results_gone a ≡ true → eq_name output a ≡ false
    unfolding results_gone
    results_gone-apart output g = absurd (ground (arith, g, any-results nreduce 0 output))
    results_gone-apart (splits k) g = refl
    results_gone-apart (parts k r) g = refl
    results_gone-apart (results r) g = refl

    cleanup_files-Removes : Removes file (is_file_of nmap nreduce) (cleanup_files nmap nreduce file)
    unfolding cleanup_files map_job maps_gone results_gone
    cleanup_files-Removes =
        Removes-same all_gone (λ fs. refl)
          (seq-Removes file maps_gone (λ a. results_gone a || eq_name output a)
            (run_jobs map_job nmap 0)
            (λ fs.
              run_jobs (λ r. remove_file (merge_name file r)) nreduce 0 fs
              >>= remove_file (out_name file))
            maps-apart
            (run_jobs-Removes file (of_map nreduce) map_job of_map-apart nmap 0
              (λ i lt. of_map-Removes i (omega arith)))
            (seq-Removes file results_gone (eq_name output)
              (run_jobs (λ r. remove_file (merge_name file r)) nreduce 0)
              (remove_file (out_name file)) results_gone-apart
              (run_jobs-Removes file (λ r. eq_name (results r))
                (λ r. remove_file (merge_name file r)) results-apart nreduce 0
                (λ r lt. remove_file-Removes file (results r) (omega arith)))
              (remove_file-Removes file output tt)))

    -- `CleanupFiles`, with int numbers of jobs: where all files of the job are there, it ends, and any file
    -- that a job of this input may have is removed if it is one of these, and is otherwise as it was.
    pub cleanup_files-removes :
        (fs : Files) (a : Name)
        → IsSmall a
        → ((b : Name) → IsSmall b → is_file_of nmap nreduce b ≡ true → IsThere file fs b)
        → (fs' : Files) × (cleanup_files nmap nreduce file fs ≡ some fs')
          × (lookup (name_of file a) fs'
              ≡ (if is_file_of nmap nreduce a then none else lookup (name_of file a) fs))
    cleanup_files-removes fs a small there =
        let (fs', ends, gone) = cleanup_files-Removes.ends fs there in (fs', ends, gone a small)
