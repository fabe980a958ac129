-- ===== src/MapReduce/Reference.antt =====
-- The output of a job of src/mapreduce/mapreduce.go, described with no files, jobs or partitions.
use distributed_systems_engi.Base.{
  ◌≡◌, refl, ap, ◌∙◌, inl, inr, List, [], ◌∷◌, ◌++◌, arith, ◌==◌, ==-iff, Str, str_eq, codes,
  if◌then◌else◌, Bool-cases, elem, Distinct, sort_strings, All,
}
use distributed_systems_engi.MapReduce.{KeyValue, Json, encode_all}
use distributed_systems_engi.MapReduce.Grouping.{values, has_key}

-- The keys of some pairs, each once
unfoldable pub distinct_keys : List KeyValue → List Str
unfolding has_key
distinct_keys [] = []
distinct_keys (kv ∷ kvs) =
    let rest = distinct_keys kvs in if has_key kv.key kvs then rest else kv.key ∷ rest

-- A line for each key with its result
unfoldable pub report : (Str → Str) → List Str → Str
report result [] = []
report result (k ∷ ks) = k ++ codes ": " ++ result k ++ codes "\n" ++ report result ks

-- The pairs that Map makes of the texts, in order
unfoldable pub all_pairs : (Str → List KeyValue) → List Str → List KeyValue
all_pairs map_fun [] = []
all_pairs map_fun (text ∷ texts) = map_fun text ++ all_pairs map_fun texts

-- The output of the job for the texts of the map jobs: for each key of the pairs, in order, Reduce
-- of all its values.
unfoldable pub reference : (Str → List KeyValue) → (Str → List Str → Str) → List Str → Str
unfolding distinct_keys report all_pairs
reference map_fun reduce_fun texts =
    let kvs = all_pairs map_fun texts in
    report (λ k. reduce_fun k (values k kvs)) (sort_strings (distinct_keys kvs))

pub elem-distinct_keys :
    (k : Str) (kvs : List KeyValue) → elem k (distinct_keys kvs) ≡ has_key k kvs
unfolding elem has_key distinct_keys
elem-distinct_keys k [] = refl
elem-distinct_keys k (kv ∷ kvs) = elim (Bool-cases (kv.key == k)) [
  | inl same ↦
      let e = ap (λ s. has_key s kvs) ((==-iff kv.key k).0 same) in
      ground (arith, same, e, elem-distinct_keys k kvs)
  | inr other ↦ ground (arith, other, elem-distinct_keys k kvs)
]

pub distinct_keys-Distinct : (kvs : List KeyValue) → Distinct (distinct_keys kvs)
unfolding distinct_keys
distinct_keys-Distinct [] = tt
distinct_keys-Distinct (kv ∷ kvs) = elim (Bool-cases (has_key kv.key kvs)) [
  | inl again ↦ rw again (distinct_keys-Distinct kvs)
  | inr new ↦ rw new (elem-distinct_keys kv.key kvs ∙ new, distinct_keys-Distinct kvs)
]

-- What the jobs rely on: Decode reads back what Encode wrote for pairs of texts that it can carry.
pub record IsCoder (j : Json) (IsText : Str → Type 0) : Type 0 where
  pub decode-encode :
      (kvs : List KeyValue)
      → All (λ kv. IsText kv.key × IsText kv.value) kvs
      → j.decode (encode_all j kvs) ≡ kvs
