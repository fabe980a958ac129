-- ===== src/MapReduce/Samples.antt =====
-- A plain coder and a plain FieldsFunc, for the tests.
use mathlib.Core.List.{append_assoc}
use distributed_systems_engi.Base.{
  ℕ, ◌≡◌, refl, ap, ◌∙◌, List, [], ◌∷◌, ◌++◌, arith, Str, All, Lacks, split, split-append, ◌≤◌, leb,
  if◌then◌else◌, Bool-cases, inl, inr, str_eq,
}
use distributed_systems_engi.MapReduce.{KeyValue, Json, encode_all}
use distributed_systems_engi.MapReduce.Reference.{IsCoder}

-- A coder for texts with no 0: the key and the value, each before a 0.
abbrev pub pair_up : List Str → List KeyValue
pair_up [] = []
pair_up (k ∷ []) = []
pair_up (k ∷ v ∷ rest) = record { key = k; value = v } ∷ pair_up rest

abbrev pub decode : Str → List KeyValue
decode s = pair_up (split 0 s)

abbrev pub coder : Json
coder = record { encode = λ kv. kv.key ++ 0 ∷ kv.value ++ 0 ∷ []; decode = decode }

decode_lem :
    (kvs : List KeyValue)
    → All (λ kv. Lacks 0 kv.key × Lacks 0 kv.value) kvs
    → coder.decode (encode_all coder kvs) ≡ kvs
unfolding encode_all
decode_lem [] h = unfold split in refl
decode_lem (kv ∷ kvs) h =
    let rest = encode_all coder kvs in
    ap decode (
      append_assoc (kv.key ++ 0 ∷ kv.value) (0 ∷ []) rest
      ∙ append_assoc kv.key (0 ∷ kv.value) (0 ∷ rest))
    ∙ ap pair_up (split-append 0 kv.key (kv.value ++ 0 ∷ rest) (h.0).0)
    ∙ ap (λ ps. pair_up (kv.key ∷ ps)) (split-append 0 kv.value rest (h.0).1)
    ∙ ap (λ ps. kv ∷ ps) (decode_lem kvs h.1)

pub coder-IsCoder : IsCoder coder (Lacks 0)
coder-IsCoder = record { decode-encode = decode_lem }

-- The runs of bytes from 'A' on
abbrev pub add_byte : ℕ → List Str → List Str
add_byte c [] = (c ∷ []) ∷ []
add_byte c (w ∷ ws) = (c ∷ w) ∷ ws

abbrev pub runs : Str → List Str
runs [] = [] ∷ []
runs (c ∷ s) = let rest = runs s in if leb 65 c then add_byte c rest else [] ∷ rest

abbrev pub drop_empty : List Str → List Str
drop_empty [] = []
drop_empty ([] ∷ ws) = drop_empty ws
drop_empty ((c ∷ w) ∷ ws) = (c ∷ w) ∷ drop_empty ws

abbrev pub fields : Str → List Str
fields s = drop_empty (runs s)

add_byte-All : (c : ℕ) (ws : List Str) → 65 ≤ c → All (Lacks 0) ws → All (Lacks 0) (add_byte c ws)
add_byte-All c [] h hs = ((omega arith, tt), tt)
add_byte-All c (w ∷ ws) h hs = ((omega arith, hs.0), hs.1)

runs-All : (s : Str) → All (Lacks 0) (runs s)
runs-All [] = (tt, tt)
runs-All (c ∷ s) = elim (Bool-cases (leb 65 c)) [
  | inl letter ↦ rw letter (add_byte-All c (runs s) (ground arith) (runs-All s))
  | inr other ↦ rw other (tt, runs-All s)
]

drop_empty-All : (ws : List Str) → All (Lacks 0) ws → All (Lacks 0) (drop_empty ws)
drop_empty-All [] h = tt
drop_empty-All ([] ∷ ws) h = drop_empty-All ws h.1
drop_empty-All ((c ∷ w) ∷ ws) h = (h.0, drop_empty-All ws h.1)

pub fields-All : (s : Str) → All (Lacks 0) (fields s)
fields-All s = drop_empty-All (runs s) (runs-All s)
