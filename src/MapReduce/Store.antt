-- ===== src/MapReduce/Store.antt =====
-- What the jobs of src/mapreduce/mapreduce.go write to the store, seen through the names of a job's
-- files.
use distributed_systems_engi.Base.{
  ◌^◌, ◌%◌, false, ℕ, zero, suc, ◌+◌, ◌-◌, ◌<◌, ◌≤◌, ◌≡◌, refl, ap, ◌∙◌, inl, inr, Bool, false,
  ◌&&◌, Option, none, some, List, [], ◌∷◌, arith, eqb, ltb, leb, Str, str_eq, lookup, insert,
  if◌then◌else◌, length, get_elem?, max_int, max_uint32, Bool-cases, ℕ_discrete,
}
use distributed_systems_engi.MapReduce.{
  KeyValue, Files, Json, map_name, reduce_name, partition, encode_all, write_splits,
  write_partitions, do_map, run_jobs, divides_by_zero,
}
use distributed_systems_engi.MapReduce.Names.{
  Name, splits, parts, results, output, name_of, IsSmall, eq_name, lookup-write,
}

abbrev pub or_else {ℓ} : {A : Type ℓ} → Option A → Option A → Option A
or_else none o = o
or_else (some a) o = some a

-- The input of a map job that a list of texts holds, the first of which is for job `m`
abbrev pub split_at : ℕ → List Str → Name → Option Str
split_at m texts (splits i) = if leb m i then get_elem? texts (i - m) else none
split_at m texts _ = none

pub lookup-write_splits :
    (file : Str) (m : ℕ) (texts : List Str) (fs : Files) (a : Name)
    → IsSmall a
    → m + length texts ≤ max_int
    → lookup (name_of file a) (write_splits file m texts fs)
      ≡ or_else (split_at m texts a) (lookup (name_of file a) fs)
unfolding write_splits
lookup-write_splits file m [] fs (splits i) ha h = ground arith
lookup-write_splits file m [] fs (parts i r) ha h = refl
lookup-write_splits file m [] fs (results r) ha h = refl
lookup-write_splits file m [] fs output ha h = refl
lookup-write_splits file m (text ∷ texts) fs (splits i) ha h =
    lookup-write_splits file (suc m) texts (insert (map_name file m) text fs) (splits i) ha
      (omega arith)
    ∙ elim (Bool-cases (ltb m i)) [
      | inl later ↦
          let e : i - m ≡ suc (i - suc m) = ground arith in
          rw (e, lookup-write file (splits m) (splits i) text fs (omega arith) ha) (ground arith)
      | inr not_later ↦
          rw (lookup-write file (splits m) (splits i) text fs (omega arith) ha)
            (split_first i m text texts not_later)
    ]
  where
    split_first :
        (i m : ℕ) (text : Str) (texts : List Str)
        → ltb m i ≡ false
        → or_else
            (split_at (suc m) texts (splits i))
            (if eqb m i then some text else lookup (map_name file i) fs)
          ≡ or_else (split_at m (text ∷ texts) (splits i)) (lookup (map_name file i) fs)
    split_first i m text texts n = let z : i - m ≡ 0 = ground arith in rw z (ground arith)
lookup-write_splits file m (text ∷ texts) fs (parts i r) ha h =
    lookup-write_splits file (suc m) texts (insert (map_name file m) text fs) (parts i r) ha
      (omega arith)
    ∙ lookup-write file (splits m) (parts i r) text fs (omega arith) ha
lookup-write_splits file m (text ∷ texts) fs (results r) ha h =
    lookup-write_splits file (suc m) texts (insert (map_name file m) text fs) (results r) ha
      (omega arith)
    ∙ lookup-write file (splits m) (results r) text fs (omega arith) ha
lookup-write_splits file m (text ∷ texts) fs output ha h =
    lookup-write_splits file (suc m) texts (insert (map_name file m) text fs) output ha
      (omega arith)
    ∙ lookup-write file (splits m) output text fs (omega arith) ha

pub run_jobs-step :
    (job : ℕ → Files → Option Files) (n i : ℕ) (fs fs1 fs' : Files)
    → job i fs ≡ some fs1
    → run_jobs job n (suc i) fs1 ≡ some fs'
    → run_jobs job (suc n) i fs ≡ some fs'
unfolding run_jobs
run_jobs-step job n i fs fs1 fs' e r = ground (arith, e, r)

-- The file holds pairs of the map job for a reduce job from `r` on, below `r + n`.
abbrev pub is_part : ℕ → ℕ → ℕ → Name → Bool
is_part job r n (parts i s) = eqb i job && (leb r s && ltb s (r + n))
is_part job r n _ = false

module _ (j : Json) (map_fun : Str → List KeyValue) (file : Str) (nreduce : ℕ) where
  -- The text that a map job over the pairs writes to the file
  abbrev pub part_of : List KeyValue → Name → Str
  part_of kvs (parts i s) = encode_all j (partition nreduce s kvs)
  part_of kvs _ = []

  pub divides_by_zero-small :
      (kvs : List KeyValue) → nreduce ≤ max_uint32 → divides_by_zero nreduce kvs ≡ false
  unfolding divides_by_zero
  divides_by_zero-small [] h = refl
  divides_by_zero-small (kv ∷ kvs) h =
      let e : nreduce % 2 ^ 32 ≡ nreduce = omega (arith, h) in rw e (ground arith)

  do_map_lem :
      (job : ℕ) (text : Str) (fs : Files)
      → nreduce ≤ max_uint32
      → lookup (map_name file job) fs ≡ some text
      → do_map j map_fun job file nreduce fs
        ≡ some (write_partitions j map_fun job file nreduce nreduce 0 (map_fun text) fs)
  unfolding do_map
  do_map_lem job text fs h e = ground (arith, e, divides_by_zero-small (map_fun text) h)

  is_part-step :
      (job r n : ℕ) (kvs : List KeyValue) (a : Name) (o : Option Str)
      → (if is_part job (suc r) n a
          then some (part_of kvs a)
          else (if eq_name (parts job r) a
              then some (encode_all j (partition nreduce r kvs))
              else o))
        ≡ (if is_part job r (suc n) a then some (part_of kvs a) else o)
  is_part-step job r n kvs (parts i s) o = elim (ℕ_discrete r s) [
    | yes e ↦ rw e (ground arith)
    | no ne ↦ ground arith
  ]
  is_part-step job r n kvs (splits i) o = refl
  is_part-step job r n kvs (results s) o = refl
  is_part-step job r n kvs output o = refl

  pub lookup-write_partitions :
      (job n r : ℕ) (kvs : List KeyValue) (fs : Files) (a : Name)
      → IsSmall a
      → job ≤ max_int
      → r + n ≤ max_int
      → lookup (name_of file a) (write_partitions j map_fun job file nreduce n r kvs fs)
        ≡ (if is_part job r n a then some (part_of kvs a) else lookup (name_of file a) fs)
  unfolding write_partitions
  lookup-write_partitions job zero r kvs fs (parts i s) ha hj h = ground arith
  lookup-write_partitions job zero r kvs fs (splits i) ha hj h = refl
  lookup-write_partitions job zero r kvs fs (results s) ha hj h = refl
  lookup-write_partitions job zero r kvs fs output ha hj h = refl
  lookup-write_partitions job (suc n) r kvs fs a ha hj h =
      lookup-write_partitions job n (suc r) kvs
        (insert (reduce_name file job r) (encode_all j (partition nreduce r kvs)) fs) a ha hj
        (omega arith)
      ∙ ap (λ o. if is_part job (suc r) n a then some (part_of kvs a) else o)
          (lookup-write file (parts job r) a (encode_all j (partition nreduce r kvs)) fs
            (hj, omega arith) ha)
      ∙ is_part-step job r n kvs a (lookup (name_of file a) fs)

  -- The inputs of the map jobs from `i` on, below `i + n`
  abbrev pub HasSplits : ℕ → ℕ → (ℕ → Str) → Files → Type 0
  HasSplits i n chunk fs =
      (k : ℕ) → i ≤ k → k < i + n → lookup (map_name file k) fs ≡ some (chunk k)

  -- What the map jobs from `i` on, below `i + n`, have written
  abbrev pub HasParts : ℕ → ℕ → (ℕ → Str) → Files → Type 0
  HasParts i n chunk fs =
      (k s : ℕ)
      → i ≤ k
      → k < i + n
      → s < nreduce
      → lookup (reduce_name file k s) fs
        ≡ some (encode_all j (partition nreduce s (map_fun (chunk k))))

  -- The map jobs end where each has its input, and have written the pairs of each for each reduce job.
  pub run_jobs-HasParts :
      (chunk : ℕ → Str) (n i : ℕ) (fs : Files)
      → i + n ≤ max_int
      → nreduce ≤ max_uint32
      → HasSplits i n chunk fs
      → (fs' : Files) × (run_jobs (λ k. do_map j map_fun k file nreduce) n i fs ≡ some fs')
        × HasParts i n chunk fs'
        × ((k s : ℕ)
            → k < i
            → s < nreduce
            → lookup (reduce_name file k s) fs' ≡ lookup (reduce_name file k s) fs)
  unfolding run_jobs
  run_jobs-HasParts chunk zero i fs h hr hs =
      (fs, refl, λ k s lo hi. absurd (omega arith), λ k s lt ls. refl)
  run_jobs-HasParts chunk (suc n) i fs h hr hs =
      let fs1 = write_partitions j map_fun i file nreduce nreduce 0 (map_fun (chunk i)) fs in
      let wrote = λ (a : Name) (ha : IsSmall a).
        lookup-write_partitions i nreduce 0 (map_fun (chunk i)) fs a ha (omega arith)
          (omega arith) in
      let (fs', ran, later, before) =
        run_jobs-HasParts chunk n (suc i) fs1 (omega arith) hr
          (λ k lo hi. wrote (splits k) (omega arith) ∙ hs k (omega arith) (omega arith)) in
      (
        fs',
        run_jobs-step (λ k. do_map j map_fun k file nreduce) n i fs fs1 fs'
            (do_map_lem i (chunk i) fs hr (hs i (omega arith) (omega arith))) ran,
        λ k s lo hi ls. elim (ℕ_discrete i k) [
          | yes e ↦ rw (← e) (
              before i s (omega arith) ls
              ∙ wrote (parts i s) (omega arith, omega arith)
              ∙ ground arith)
          | no ne ↦ later k s (omega arith) (omega arith) ls
        ],
        λ k s lt ls.
            before k s (omega arith) ls
            ∙ wrote (parts k s) (omega arith, omega arith)
            ∙ ground arith,
      )
