-- ===== src/MapReduce.antt =====
-- src/mapreduce/mapreduce.go: the jobs of the library on a store of files. A text is a list of bytes.
-- The JSON coder and the application's Map and Reduce are parameters. `none` is log.Fatal.
pub mod Names
pub mod Store
pub mod Grouping
pub mod Reference
pub mod Inputs
pub mod Jobs
pub mod Sequential
pub mod Removing
pub mod Cleanup
pub mod Splitting
pub mod Missing
pub mod WordCount
pub mod Worker
pub mod Master
pub mod Lifecycle
mod CleanupTests
mod Samples
mod Tests
use Prim.Native.Nat.{bit_xor}
use mathlib.Core.Option
use distributed_systems_engi.Base.{
  ◌&&◌, keys_of, elem-keys_of, keys_of-insert, insert-Distinct, ℕ, zero, suc, ◌+◌, ◌*◌, ◌/◌, ◌%◌,
  ◌^◌, Bool, true, false, Option, none, some, List, [], ◌∷◌, ◌++◌, map, ltb, eqb, ◌==◌,
  if◌then◌else◌, Str, codes, str_eq, nat_eq, split, itoa, length, Map, or_zero, lookup, insert,
  delete, sort_strings,
}

pub record KeyValue : Type 0 where
  pub key : Str
  pub value : Str

-- The files: names and contents
abbrev pub Files : Type 0
Files = Map Str Str

-- encoding/json as `DoMap` and `DoReduce` use it: the text that Encode writes for a pair, and the
-- pairs that repeated calls of Decode read from a text until the first error.
pub record Json : Type 0 where
  pub encode : KeyValue → Str
  pub decode : Str → List KeyValue

unfoldable pub map_name : Str → ℕ → Str
map_name file job = codes "mrtmp." ++ file ++ codes "-" ++ itoa job

unfoldable pub reduce_name : Str → ℕ → ℕ → Str
unfolding map_name
reduce_name file map_job reduce_job = map_name file map_job ++ codes "-" ++ itoa reduce_job

unfoldable pub merge_name : Str → ℕ → Str
merge_name file job = codes "mrtmp." ++ file ++ codes "-res-" ++ itoa job

unfoldable pub out_name : Str → Str
out_name file = codes "mrtmp." ++ file

-- bufio.MaxScanTokenSize
abbrev pub max_token : ℕ
max_token = 65536

-- The end of a line is cut off with a carriage return before it.
unfoldable pub drop_cr : Str → Str
drop_cr [] = []
drop_cr (c ∷ []) = if c == 13 then [] else c ∷ []
drop_cr (c ∷ d ∷ s) = c ∷ drop_cr (d ∷ s)

-- The lines that a bufio.Scanner finds, given the pieces between newlines: the last piece is no
-- line if it is empty, and a piece that is too long ends the scan.
unfoldable pub scan_pieces : List Str → List Str
unfolding drop_cr
scan_pieces [] = []
scan_pieces (p ∷ []) =
    if p == [] then [] else if ltb (length p) max_token then drop_cr p ∷ [] else []
scan_pieces (p ∷ q ∷ ps) =
    let rest = scan_pieces (q ∷ ps) in if ltb (length p) max_token then drop_cr p ∷ rest else []

unfoldable pub scan_lines : Str → List Str
unfolding scan_pieces
scan_lines s = scan_pieces (split 10 s)

-- The loop of `Split`: the texts of the files from the open one on, of which `written` is written.
unfoldable pub split_lines : ℕ → ℕ → ℕ → Str → List Str → List Str
split_lines nchunk m i written [] = written ∷ []
split_lines nchunk m i written (line ∷ lines) =
    let text = line ++ codes "\n" in
    let next = split_lines nchunk (m + 1) (i + length text) text lines in
    let same = split_lines nchunk m (i + length text) (written ++ text) lines in
    if ltb (nchunk * m) i then written ∷ next else same

-- The texts of the files that `Split` writes, for a text and a number of map jobs
unfoldable pub split_text : ℕ → Str → List Str
unfolding split_lines
split_text nmap text = split_lines (length text / nmap + 1) 1 0 [] (scan_lines text)

-- Write the texts to the files of the map jobs from `m` on.
unfoldable pub write_splits : Str → ℕ → List Str → Files → Files
write_splits file m [] fs = fs
write_splits file m (text ∷ texts) fs =
    write_splits file (suc m) texts (insert (map_name file m) text fs)

-- `Split`; `none` where it cannot open the file, or divides by no map jobs.
unfoldable pub split_file : ℕ → Str → Files → Option Files
unfolding split_text write_splits
split_file zero file fs = none
split_file (suc n) file fs =
    Option.map (λ text. write_splits file 0 (split_text (suc n) text) fs) (lookup file fs)

-- The bytes of a text through hash/fnv New32a
unfoldable pub fnv32a : ℕ → Str → ℕ
fnv32a h [] = h
fnv32a h (c ∷ s) = fnv32a ((bit_xor h c * 16777619) % 2 ^ 32) s

unfoldable pub ihash : Str → ℕ
unfolding fnv32a
ihash s = fnv32a 2166136261 s

-- ihash(kv.Key) % uint32(nreduce) == uint32(r)
unfoldable pub is_own : ℕ → ℕ → Str → Bool
unfolding ihash
is_own nreduce r key = eqb (ihash key % (nreduce % 2 ^ 32)) (r % 2 ^ 32)

-- Whether that panics for some pair, in the pass for the first reduce job
unfoldable pub divides_by_zero : ℕ → List KeyValue → Bool
divides_by_zero nreduce [] = false
divides_by_zero nreduce (kv ∷ kvs) = ltb 0 nreduce && eqb (nreduce % 2 ^ 32) 0

-- The pairs that go to the reduce job `r`
unfoldable pub partition : ℕ → ℕ → List KeyValue → List KeyValue
unfolding is_own
partition nreduce r [] = []
partition nreduce r (kv ∷ kvs) =
    let rest = partition nreduce r kvs in if is_own nreduce r kv.key then kv ∷ rest else rest

-- What repeated calls of Encode write
unfoldable pub encode_all : Json → List KeyValue → Str
encode_all j [] = []
encode_all j (kv ∷ kvs) = j.encode kv ++ encode_all j kvs

module _ (j : Json) (map_fun : Str → List KeyValue) where
  -- The loop of `DoMap` over `n` reduce jobs from `r` on
  unfoldable pub write_partitions : ℕ → Str → ℕ → ℕ → ℕ → List KeyValue → Files → Files
  unfolding partition encode_all
  write_partitions job file nreduce zero r kvs fs = fs
  write_partitions job file nreduce (suc n) r kvs fs =
      write_partitions job file nreduce n (suc r) kvs
        (insert (reduce_name file job r) (encode_all j (partition nreduce r kvs)) fs)

  unfoldable pub do_map : ℕ → Str → ℕ → Files → Option Files
  unfolding write_partitions divides_by_zero
  do_map job file nreduce fs = elim (lookup (map_name file job) fs) [
    | none ↦ none
    | some text ↦
        if divides_by_zero nreduce (map_fun text)
        then none
        else some (write_partitions job file nreduce nreduce 0 (map_fun text) fs)
  ]

-- kvs[kv.Key].PushBack(kv.Value), for each pair
unfoldable pub group : List KeyValue → Map Str (List Str) → Map Str (List Str)
group [] kvs = kvs
group (kv ∷ rest) kvs =
    group rest (insert kv.key (or_zero [] (lookup kv.key kvs) ++ kv.value ∷ []) kvs)

-- The pairs that the map jobs wrote for a reduce job, over `n` map jobs from `i` on
unfoldable pub read_partitions : Json → ℕ → Str → ℕ → ℕ → Files → Option (List KeyValue)
read_partitions j job file zero i fs = some []
read_partitions j job file (suc n) i fs = elim (lookup (reduce_name file i job) fs) [
  | none ↦ none
  | some text ↦ Option.map (λ kvs. j.decode text ++ kvs) (read_partitions j job file n (suc i) fs)
]

module _ (j : Json) (reduce_fun : Str → List Str → Str) where
  -- The loop of `DoReduce` over the sorted keys
  unfoldable pub reduce_keys : List Str → Map Str (List Str) → List KeyValue
  reduce_keys [] kvs = []
  reduce_keys (k ∷ ks) kvs =
      record { key = k; value = reduce_fun k (or_zero [] (lookup k kvs)) } ∷ reduce_keys ks kvs

  unfoldable pub do_reduce : ℕ → Str → ℕ → Files → Option Files
  unfolding read_partitions group keys_of sort_strings reduce_keys encode_all
  do_reduce job file nmap fs =
      Option.map
        (λ pairs.
          let kvs = group pairs [] in
          insert (merge_name file job) (encode_all j (reduce_keys (sort_strings (keys_of kvs)) kvs))
            fs)
        (read_partitions j job file nmap 0 fs)

-- kvs[kv.Key] = kv.Value, for each pair
unfoldable pub insert_all : List KeyValue → Map Str Str → Map Str Str
insert_all [] kvs = kvs
insert_all (kv ∷ rest) kvs = insert_all rest (insert kv.key kv.value kvs)

-- The first loop of `Merge`, over `n` reduce jobs from `i` on
unfoldable pub read_results : Json → Str → ℕ → ℕ → Files → Map Str Str → Option (Map Str Str)
unfolding insert_all
read_results j file zero i fs kvs = some kvs
read_results j file (suc n) i fs kvs = elim (lookup (merge_name file i) fs) [
  | none ↦ none
  | some text ↦ read_results j file n (suc i) fs (insert_all (j.decode text) kvs)
]

-- fmt.Fprintf(w, "%s: %s\n", k, kvs[k]), for each key
unfoldable pub print_keys : List Str → Map Str Str → Str
print_keys [] kvs = []
print_keys (k ∷ ks) kvs =
    k ++ codes ": " ++ or_zero [] (lookup k kvs) ++ codes "\n" ++ print_keys ks kvs

unfoldable pub merge : Json → Str → ℕ → Files → Option Files
unfolding read_results keys_of sort_strings print_keys
merge j file nreduce fs =
    Option.map (λ kvs. insert (out_name file) (print_keys (sort_strings (keys_of kvs)) kvs) fs)
      (read_results j file nreduce 0 fs [])

-- The loops of `RunSingle` over `n` jobs from `i` on
unfoldable pub run_jobs : (ℕ → Files → Option Files) → ℕ → ℕ → Files → Option Files
run_jobs job zero i fs = some fs
run_jobs job (suc n) i fs = elim (job i fs) [ none ↦ none | some fs' ↦ run_jobs job n (suc i) fs' ]

infixl 5 ◌>>=◌
abbrev pub ◌>>=◌ : Option Files → (Files → Option Files) → Option Files
none >>= f = none
some fs >>= f = f fs

unfoldable pub run_single :
    Json → ℕ → ℕ → Str → (Str → List KeyValue) → (Str → List Str → Str) → Files → Option Files
unfolding split_file do_map do_reduce merge run_jobs
run_single j nmap nreduce file map_fun reduce_fun fs = do
  split' ← split_file nmap file fs
  mapped ← run_jobs (λ i. do_map j map_fun i file nreduce) nmap 0 split'
  reduced ← run_jobs (λ i. do_reduce j reduce_fun i file nmap) nreduce 0 mapped
  merge j file nreduce reduced

-- `RemoveFile`; `none` where there is no such file.
unfoldable pub remove_file : Str → Files → Option Files
remove_file name fs = elim (lookup name fs) [ none ↦ none | some text ↦ some (delete name fs) ]

unfoldable pub cleanup_files : ℕ → ℕ → Str → Files → Option Files
unfolding run_jobs remove_file
cleanup_files nmap nreduce file fs = do
  mapped ←
      run_jobs
        (λ i fs'. do
          fs'' ← remove_file (map_name file i) fs'
          run_jobs (λ r. remove_file (reduce_name file i r)) nreduce 0 fs'')
        nmap 0 fs
  reduced ← run_jobs (λ r. remove_file (merge_name file r)) nreduce 0 mapped
  remove_file (out_name file) reduced
