-- ===== src/MapReduce/WordCount.antt =====
-- src/main/wc.go, the application that counts words. The words of a text are what
-- strings.FieldsFunc(_, filter) finds, a parameter.
use distributed_systems_engi.Base.{
  ℕ, suc, ◌<◌, ◌≤◌, ◌≡◌, refl, sym, ap, ◌∙◌, fun_ext, some, List, [], ◌∷◌, ◌++◌, map, arith, ◌==◌,
  Str, str_eq, codes, itoa, lookup, length, max_int, max_uint32, All, elem, sort_strings,
  if◌then◌else◌,
}
use distributed_systems_engi.MapReduce.{KeyValue, Json, Files, out_name, split_text, run_single}
use distributed_systems_engi.MapReduce.Grouping.{values, has_key}
use distributed_systems_engi.MapReduce.Splitting.{concat}
use distributed_systems_engi.MapReduce.Reference.{
  IsCoder, all_pairs, distinct_keys, report, reference,
}
use distributed_systems_engi.MapReduce.Sequential.{run_single-reference}

abbrev one : Str → KeyValue
one word = record { key = word; value = codes "1" }

-- `Map` for the words of a text
unfoldable pub wc_map : (Str → List Str) → Str → List KeyValue
wc_map fields value = map one (fields value)

-- `Reduce`
unfoldable pub wc_reduce : Str → List Str → Str
wc_reduce key vs = itoa (length vs)

unfoldable pub count : Str → List Str → ℕ
count w [] = 0
count w (v ∷ vs) = let rest = count w vs in if v == w then suc rest else rest

-- The words, each once
unfoldable pub distinct : List Str → List Str
distinct [] = []
distinct (w ∷ ws) = let rest = distinct ws in if elem w ws then rest else w ∷ rest

length-values : (k : Str) (ws : List Str) → length (values k (map one ws)) ≡ count k ws
unfolding values count
length-values k [] = refl
length-values k (w ∷ ws) = ground (arith, length-values k ws)

has_key-elem : (k : Str) (ws : List Str) → has_key k (map one ws) ≡ elem k ws
unfolding has_key elem
has_key-elem k [] = refl
has_key-elem k (w ∷ ws) = ground (arith, has_key-elem k ws)

distinct_keys-distinct : (ws : List Str) → distinct_keys (map one ws) ≡ distinct ws
unfolding distinct_keys distinct
distinct_keys-distinct [] = refl
distinct_keys-distinct (w ∷ ws) = ground (arith, has_key-elem w ws, distinct_keys-distinct ws)

map-append : (xs ys : List Str) → map one (xs ++ ys) ≡ map one xs ++ map one ys
map-append [] ys = refl
map-append (x ∷ xs) ys = ap (λ zs. one x ∷ zs) (map-append xs ys)

all_pairs-words :
    (fields : Str → List Str) (texts : List Str)
    → all_pairs (wc_map fields) texts ≡ map one (concat (map fields texts))
unfolding all_pairs wc_map concat
all_pairs-words fields [] = refl
all_pairs-words fields (t ∷ texts) =
    ap (λ kvs. map one (fields t) ++ kvs) (all_pairs-words fields texts)
    ∙ sym (map-append (fields t) (concat (map fields texts)))

pub All-map :
    (IsText : Str → Type 0) (ws : List Str)
    → IsText (codes "1")
    → All IsText ws
    → All (λ kv. IsText kv.key × IsText kv.value) (map one ws)
All-map IsText [] h hs = tt
All-map IsText (w ∷ ws) h hs = ((hs.0, h), All-map IsText ws h hs.1)

-- `RunSingle` with the Map and the Reduce of wc.go, an int number of map jobs and a uint32 number of reduce
-- jobs, at least one of each,
-- and a coder that can carry words and printed numbers: where `Split` makes as many texts as there
-- are map jobs, it ends, and the output file has, in the order of the words, a line for each word of
-- the texts with the number of times that it occurs in all of them.
pub run_single-counts :
    (j : Json) (IsText : Str → Type 0) (fields : Str → List Str)
    → IsCoder j IsText
    → ((s : Str) → All IsText (fields s))
    → ((n : ℕ) → IsText (itoa n))
    → (nmap nreduce : ℕ) (file text : Str) (fs : Files) → 0 < nmap
    → nmap ≤ max_int
    → 0 < nreduce
    → nreduce ≤ max_uint32
    → lookup file fs ≡ some text
    → length (split_text nmap text) ≡ nmap
    → let words = concat (map fields (split_text nmap text)) in
      (fs' : Files) × (run_single j nmap nreduce file (wc_map fields) wc_reduce fs ≡ some fs')
      × (lookup (out_name file) fs'
          ≡ some (report (λ w. itoa (count w words)) (sort_strings (distinct words))))
unfolding wc_map wc_reduce
run_single-counts j IsText fields coder words_ok numbers_ok nmap nreduce file text fs h1 h2 h3 h4
      found len =
    let texts = split_text nmap text in
    let words = concat (map fields texts) in
    let (fs', ran, out) =
      run_single-reference j IsText coder (wc_map fields) wc_reduce
        (λ s. All-map IsText (fields s) (unfold itoa in numbers_ok 1) (words_ok s))
        (λ k vs. numbers_ok (length vs)) file nreduce h4 nmap text fs h1 h2 h3 found len in
    (
      fs',
      ran,
      out
          ∙ ap some (
              unfold reference in
              ap
                (λ kvs.
                  report (λ k. itoa (length (values k kvs))) (sort_strings (distinct_keys kvs)))
                (all_pairs-words fields texts)
              ∙ ap (λ ws. report (λ k. itoa (length (values k (map one words)))) (sort_strings ws))
                  (distinct_keys-distinct words)
              ∙ ap (λ f. report f (sort_strings (distinct words)))
                  (fun_ext (λ k. ap itoa (length-values k words)))),
    )
