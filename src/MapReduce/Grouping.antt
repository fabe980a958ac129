-- ===== src/MapReduce/Grouping.antt =====
-- The values of a key, and the maps by key, which `DoReduce` and `Merge` of
-- src/mapreduce/mapreduce.go build.
use mathlib.Core.List.{append_assoc, append-nil}
use distributed_systems_engi.Base.{
  ◌^◌, keys_of, elem-keys_of, insert-Distinct, ℕ, ◌%◌, ◌≡◌, refl, sym, ap, ◌∙◌, inl, inr, Bool,
  true, false, ◌&&◌, ◌||◌, some, List, [], ◌∷◌, ◌++◌, arith, eqb, ◌==◌, ==-iff, Str, str_eq, Map,
  or_zero, is_some, lookup, insert, lookup-insert, if◌then◌else◌, Bool-cases, elem, Distinct,
  sort_strings, elem-sort_strings, All, max_uint32, ◌≤◌,
}
use distributed_systems_engi.MapReduce.{
  KeyValue, Json, is_own, partition, ihash, group, reduce_keys, insert_all,
}

-- The values of a key, in order
unfoldable pub values : Str → List KeyValue → List Str
values k [] = []
values k (kv ∷ kvs) = let rest = values k kvs in if kv.key == k then kv.value ∷ rest else rest

unfoldable pub has_key : Str → List KeyValue → Bool
has_key k [] = false
has_key k (kv ∷ kvs) = (kv.key == k) || has_key k kvs

values-append : (k : Str) (xs ys : List KeyValue) → values k (xs ++ ys) ≡ values k xs ++ values k ys
unfolding values
values-append k [] ys = refl
values-append k (kv ∷ xs) ys = ground (arith, values-append k xs ys)

pub has_key-append :
    (k : Str) (xs ys : List KeyValue) → has_key k (xs ++ ys) ≡ (has_key k xs || has_key k ys)
unfolding has_key
has_key-append k [] ys = refl
has_key-append k (kv ∷ xs) ys = ground (arith, has_key-append k xs ys)

module _ (nreduce r : ℕ) where
  pub partition-append :
      (xs ys : List KeyValue)
      → partition nreduce r (xs ++ ys) ≡ partition nreduce r xs ++ partition nreduce r ys
  unfolding partition
  partition-append [] ys = refl
  partition-append (kv ∷ xs) ys = ground (arith, partition-append xs ys)

  has_key-partition :
      (k : Str) (kvs : List KeyValue)
      → has_key k (partition nreduce r kvs) ≡ (is_own nreduce r k && has_key k kvs)
  unfolding has_key partition
  has_key-partition k [] = ground arith
  has_key-partition k (kv ∷ kvs) = elim (Bool-cases (kv.key == k)) [
    | inl same ↦
        let e = ap (is_own nreduce r) ((==-iff kv.key k).0 same) in
        ground (arith, e, same, has_key-partition k kvs)
    | inr other ↦ ground (arith, other, has_key-partition k kvs)
  ]

  values-partition :
      (k : Str) (kvs : List KeyValue)
      → is_own nreduce r k ≡ true
      → values k (partition nreduce r kvs) ≡ values k kvs
  unfolding values partition
  values-partition k [] h = refl
  values-partition k (kv ∷ kvs) h = elim (Bool-cases (kv.key == k)) [
    | inl same ↦
        let e = ap (is_own nreduce r) ((==-iff kv.key k).0 same) in
        ground (arith, e, same, values-partition k kvs h)
    | inr other ↦ ground (arith, other, values-partition k kvs h)
  ]

  pub All-partition :
      (P : KeyValue → Type 0) (kvs : List KeyValue) → All P kvs → All P (partition nreduce r kvs)
  unfolding partition
  All-partition P [] h = tt
  All-partition P (kv ∷ kvs) h = ground (arith, All-partition P kvs h.1, h.0)

-- The values of `kvs` stand behind those that the map had.
group-values :
    (k : Str) (kvs : List KeyValue) (m : Map Str (List Str))
    → or_zero [] (lookup k (group kvs m)) ≡ or_zero [] (lookup k m) ++ values k kvs
unfolding group values
group-values k [] m = sym (append-nil (or_zero [] (lookup k m)))
group-values k (kv ∷ kvs) m =
    let olds = or_zero [] (lookup kv.key m) in
    group-values k kvs (insert kv.key (olds ++ kv.value ∷ []) m) ∙ elim (Bool-cases (kv.key == k)) [
      | inl same ↦
          let e : olds ≡ or_zero [] (lookup k m) =
            ap (λ s. or_zero [] (lookup s m)) ((==-iff kv.key k).0 same) in
          let l : lookup k (insert kv.key (olds ++ kv.value ∷ []) m)
              ≡ some (olds ++ kv.value ∷ []) =
            lookup-insert kv.key k (olds ++ kv.value ∷ []) m ∙ rw same in
          ap (λ o. or_zero [] o ++ values k kvs) l
          ∙ append_assoc olds (kv.value ∷ []) (values k kvs)
          ∙ ap (λ vs. vs ++ kv.value ∷ values k kvs) e
          ∙ rw same
      | inr other ↦
          let l : lookup k (insert kv.key (olds ++ kv.value ∷ []) m) ≡ lookup k m =
            lookup-insert kv.key k (olds ++ kv.value ∷ []) m ∙ rw other in
          ap (λ o. or_zero [] o ++ values k kvs) l ∙ rw other
    ]

group-is_some :
    (k : Str) (kvs : List KeyValue) (m : Map Str (List Str))
    → is_some (lookup k (group kvs m)) ≡ (has_key k kvs || is_some (lookup k m))
unfolding group has_key
group-is_some k [] m = refl
group-is_some k (kv ∷ kvs) m =
    let vs = or_zero [] (lookup kv.key m) ++ kv.value ∷ [] in
    group-is_some k kvs (insert kv.key vs m) ∙ ground (arith, lookup-insert kv.key k vs m)

group-Distinct :
    (kvs : List KeyValue) (m : Map Str (List Str))
    → Distinct (keys_of m)
    → Distinct (keys_of (group kvs m))
unfolding group
group-Distinct [] m h = h
group-Distinct (kv ∷ kvs) m h =
    group-Distinct kvs (insert kv.key (or_zero [] (lookup kv.key m) ++ kv.value ∷ []) m)
      (insert-Distinct kv.key _ m h)

-- The keys of some pairs, sorted
abbrev pub sorted_keys : List KeyValue → List Str
sorted_keys kvs = sort_strings (keys_of (group kvs []))

pub elem-sorted_keys : (k : Str) (kvs : List KeyValue) → elem k (sorted_keys kvs) ≡ has_key k kvs
unfolding lookup
elem-sorted_keys k kvs =
    elem-sort_strings k (keys_of (group kvs []))
    ∙ elem-keys_of k (group kvs [])
    ∙ group-is_some k kvs []
    ∙ ground arith

pub group-keys-Distinct : (kvs : List KeyValue) → Distinct (keys_of (group kvs []))
group-keys-Distinct kvs = unfold keys_of in group-Distinct kvs [] tt

pub insert_all-Distinct :
    (kvs : List KeyValue) (m : Map Str Str)
    → Distinct (keys_of m)
    → Distinct (keys_of (insert_all kvs m))
unfolding insert_all
insert_all-Distinct [] m h = h
insert_all-Distinct (kv ∷ kvs) m h =
    insert_all-Distinct kvs (insert kv.key kv.value m) (insert-Distinct kv.key kv.value m h)

module _ (j : Json) (reduce_fun : Str → List Str → Str) where
  -- The keys that are written, each with its result, go into the map in turn.
  lookup-insert_all :
      (k : Str) (ks : List Str) (kvs : Map Str (List Str)) (m : Map Str Str)
      → lookup k (insert_all (reduce_keys j reduce_fun ks kvs) m)
        ≡ (if elem k ks then some (reduce_fun k (or_zero [] (lookup k kvs))) else lookup k m)
  unfolding insert_all reduce_keys elem
  lookup-insert_all k [] kvs m = refl
  lookup-insert_all k (l ∷ ks) kvs m =
      let v = reduce_fun l (or_zero [] (lookup l kvs)) in
      lookup-insert_all k ks kvs (insert l v m) ∙ elim (Bool-cases (l == k)) [
        | inl same ↦
            let e =
              ap (λ s. some (reduce_fun s (or_zero [] (lookup s kvs)))) ((==-iff l k).0 same) in
            ground (arith, lookup-insert l k v m, same, e)
        | inr other ↦ ground (arith, lookup-insert l k v m, other)
      ]

  -- What a reduce job of `nreduce` writes, for the pairs of all map jobs
  abbrev pub results_of : ℕ → ℕ → List KeyValue → List KeyValue
  results_of nreduce r kvs =
      let mine = partition nreduce r kvs in
      reduce_keys j reduce_fun (sorted_keys mine) (group mine [])

  -- The conversions to uint32 change nothing.
  is_own-small :
      (nreduce r : ℕ) (k : Str)
      → nreduce ≤ max_uint32
      → r ≤ max_uint32
      → is_own nreduce r k ≡ eqb (ihash k % nreduce) r
  unfolding is_own
  is_own-small nreduce r k hn hr =
      let en : nreduce % 2 ^ 32 ≡ nreduce = omega (arith, hn) in
      let er : r % 2 ^ 32 ≡ r = omega (arith, hr) in rw (en, er) refl

  -- After the results of reduce job `r`, the map has the result of each key that is the job's.
  pub lookup-results_of :
      (nreduce r : ℕ) (k : Str) (kvs : List KeyValue) (m : Map Str Str)
      → nreduce ≤ max_uint32
      → r ≤ max_uint32
      → lookup k (insert_all (results_of nreduce r kvs) m) ≡ (
          if eqb (ihash k % nreduce) r && has_key k kvs
          then some (reduce_fun k (values k kvs))
          else lookup k m)
  lookup-results_of nreduce r k kvs m hn hr =
      let small = is_own-small nreduce r k hn hr in
      let mine = partition nreduce r kvs in
      lookup-insert_all k (sorted_keys mine) (group mine []) m
      ∙ elim (Bool-cases (is_own nreduce r k)) [
        | inl own ↦
            let vs : or_zero [] (lookup k (group mine [])) ≡ values k kvs =
              group-values k mine [] ∙ unfold lookup in values-partition nreduce r k kvs own in
            ground
              (arith, small, own, vs, elem-sorted_keys k mine, has_key-partition nreduce r k kvs)
        | inr other ↦
            ground (arith, small, other, elem-sorted_keys k mine, has_key-partition nreduce r k kvs)
      ]
