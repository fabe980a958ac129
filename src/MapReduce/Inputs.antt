-- ===== src/MapReduce/Inputs.antt =====
-- The inputs of the map jobs, as `Split` of src/mapreduce/mapreduce.go leaves them.
use distributed_systems_engi.Base.{
  ℕ, zero, suc, ◌<◌, ◌≤◌, ◌≡◌, refl, sym, ap, ◌∙◌, some, List, [], ◌∷◌, arith, Str, str_eq, or_zero,
  lookup, length, get_elem?, max_int,
}
use distributed_systems_engi.MapReduce.{Files, map_name, split_text, write_splits, split_file}
use distributed_systems_engi.MapReduce.Names.{splits}
use distributed_systems_engi.MapReduce.Store.{lookup-write_splits}

pub get_elem?-or_zero :
    (texts : List Str) (i : ℕ)
    → i < length texts
    → get_elem? texts i ≡ some (or_zero [] (get_elem? texts i))
get_elem?-or_zero [] i h = absurd (omega arith)
get_elem?-or_zero (t ∷ texts) zero h = refl
get_elem?-or_zero (t ∷ texts) (suc i) h = get_elem?-or_zero texts i (omega arith)

pub split_file_lem :
    (nmap : ℕ) (file text : Str) (fs : Files)
    → 0 < nmap
    → lookup file fs ≡ some text
    → split_file nmap file fs ≡ some (write_splits file 0 (split_text nmap text) fs)
unfolding split_file
split_file_lem zero file text fs h e = absurd (omega arith)
split_file_lem (suc n) file text fs h e = rw e

-- The text for a map job
abbrev pub chunk_of : List Str → ℕ → Str
chunk_of texts i = or_zero [] (get_elem? texts i)

-- `Split` leaves the texts in the files of the map jobs.
pub split_file-lookup :
    (nmap : ℕ) (file text : Str) (fs fs0 : Files)
    → 0 < nmap
    → nmap ≤ max_int
    → lookup file fs ≡ some text
    → length (split_text nmap text) ≡ nmap
    → split_file nmap file fs ≡ some fs0
    → (k : ℕ) → k < nmap
    → lookup (map_name file k) fs0 ≡ some (chunk_of (split_text nmap text) k)
split_file-lookup nmap file text fs fs0 some_jobs hm found count done k lt =
    let texts = split_text nmap text in
    let same : write_splits file 0 texts fs ≡ fs0 =
      ground (arith, split_file_lem nmap file text fs some_jobs found, done) in
    ap (lookup (map_name file k)) (sym same)
    ∙ lookup-write_splits file 0 texts fs (splits k) (omega arith) (omega (arith, count))
    ∙ ground (arith, get_elem?-or_zero texts k (omega (arith, count)))
