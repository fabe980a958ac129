-- ===== src/MapReduce/CleanupTests.antt =====
-- `CleanupFiles` after a job with one map job and one reduce job.
use mathlib.Core.Path.{subst}
use distributed_systems_engi.Base.{
  ◌≡◌, refl, true, none, some, [], ◌∷◌, arith, codes, lookup, str_eq, beq_str, itoa,
}
use distributed_systems_engi.MapReduce.{
  Files, map_name, reduce_name, merge_name, out_name, cleanup_files,
}
use distributed_systems_engi.MapReduce.Names.{
  Name, splits, parts, results, output, name_of, IsSmall,
}
use distributed_systems_engi.MapReduce.Cleanup.{is_file_of, cleanup_files-removes}
use distributed_systems_engi.MapReduce.Removing.{IsThere}

-- The files of the job, and its input
abbrev files : Files
files =
    (codes "in", codes "a b")
    ∷ (map_name (codes "in") 0, codes "a b")
    ∷ (reduce_name (codes "in") 0 0, [])
    ∷ (merge_name (codes "in") 0, [])
    ∷ (out_name (codes "in"), codes "a: 1\n")
    ∷ []

files-IsThere : (a : Name) → IsSmall a → is_file_of 1 1 a ≡ true → IsThere (codes "in") files a
unfolding lookup beq_str itoa map_name reduce_name merge_name out_name
files-IsThere (splits i) small g =
    let e : 0 ≡ i = ground (arith, g) in subst (λ k. IsThere (codes "in") files (splits k)) e refl
files-IsThere (parts i r) small g =
    let e : 0 ≡ i = ground (arith, g) in
    let e' : 0 ≡ r = ground (arith, g) in
    subst (λ k. IsThere (codes "in") files (parts k r)) e
      (subst (λ k. IsThere (codes "in") files (parts 0 k)) e' refl)
files-IsThere (results r) small g =
    let e : 0 ≡ r = ground (arith, g) in subst (λ k. IsThere (codes "in") files (results k)) e refl
files-IsThere output small g = refl

cleanup_files-removes_example :
    (fs' : Files) × (cleanup_files 1 1 (codes "in") files ≡ some fs')
    × (lookup (name_of (codes "in") (parts 0 0)) fs' ≡ none)
cleanup_files-removes_example =
    cleanup_files-removes (codes "in") 1 1 (omega arith) (omega arith) files (parts 0 0)
      (omega arith, omega arith) files-IsThere
