-- ===== src/DiskKv/Tests.antt =====
-- Files of a shard with base16 for base32, and the theorems at concrete inputs.
use mathlib.Core.Path.{subst}
use distributed_systems_engi.Base.{
  ==-iff, Bool-cases, inl, inr, sym, ◌+◌, ◌-◌, ◌*◌, ◌/◌, ◌%◌, ◌≡◌, refl, ◌&&◌, Option, none, some,
  [], ◌∷◌, arith, ◌==◌, str_eq, beq_str, Str, codes, itoa, Map, lookup, if◌then◌else◌, keys_of,
  elem, eqb, Distinct,
}
use distributed_systems_engi.DiskKv.{
  Dir, Disk, Base32, IsBase32, DisKv, shard_name, shard_dir, files_of, key_name, temp_name,
  file_get, write_temp, rename_temp, file_put, file_read_shard, file_replace_shard,
}
use distributed_systems_engi.DiskKv.Crashing.{
  IsOldOrNew, removes_all, writes, renames, put_calls, replace_calls, run_calls, Interrupted,
  after', within, wrote_some, file_replace_shard-crash,
}
use distributed_systems_engi.DiskKv.Replacing.{file_replace_shard-file_read_shard}
use distributed_systems_engi.DiskKv.Reading.{file_put-atomic, IsShard}

abbrev encode : Str → Str
encode [] = []
encode (c ∷ s) = (65 + c / 16) ∷ (65 + c % 16) ∷ encode s

abbrev decode : Str → Option Str
decode [] = some []
decode (x ∷ []) = none
decode (x ∷ y ∷ s) = elim (decode s) [
  | none ↦ none
  | some t ↦ some (((x - 65) * 16 + (y - 65)) ∷ t)
]

decode-encode : (s : Str) → decode (encode s) ≡ some s
decode-encode [] = refl
decode-encode (c ∷ s) = ground (arith, decode-encode s)

abbrev base16 : Base32
base16 = record { encode_key = encode; decode_key = decode }

base16-IsBase32 : IsBase32 base16
base16-IsBase32 = record { decode-encode = decode-encode }

abbrev kv : DisKv
kv = record { dir = codes "/d" }

abbrev disk : Disk
disk =
    unfold file_put write_temp rename_temp shard_dir in
    file_put base16 kv 3 (codes "a/b") (codes "old") []

file_put-atomic_example :
    ((file_get base16 kv 3 (codes "a/b") (write_temp base16 kv 3 (codes "a/b") (codes "n") disk)).1
      ≡ (file_get base16 kv 3 (codes "a/b") disk).1)
    × ((file_get base16 kv 3
          (codes "a/b")
          (file_put base16 kv 3 (codes "a/b") (codes "new") disk)).1
        ≡ (if eqb 3 3 && (codes "a/b" == codes "a/b")
            then some (codes "new")
            else (file_get base16 kv 3 (codes "a/b") disk).1))
file_put-atomic_example =
    file_put-atomic base16 base16-IsBase32 kv 3 3 (codes "a/b") (codes "n") (codes "new")
      (codes "a/b") disk (omega arith) (omega arith)

-- A file that a crash left behind, and one of a key
abbrev entries : Dir
entries = (temp_name base16 (codes "k"), codes "v") ∷ (key_name base16 (codes "j"), codes "w") ∷ []

abbrev one_shard : Disk
one_shard = (codes "/d/shard-3/", entries) ∷ []

here : files_of kv 3 one_shard ≡ entries
unfolding shard_name itoa lookup beq_str
here = refl

entries-IsShard : IsShard base16 entries
unfolding keys_of elem
entries-IsShard name e = elim (Bool-cases (temp_name base16 (codes "k") == name)) [
  | inl same ↦ (codes "k", inr (sym ((==-iff (temp_name base16 (codes "k")) name).0 same)))
  | inr other ↦ (
    codes "j",
    inl (sym ((==-iff (key_name base16 (codes "j")) name).0 (ground (arith, e, other)))),
  )
]

one_shard-IsShard : IsShard base16 (files_of kv 3 one_shard)
one_shard-IsShard = subst (IsShard base16) (sym here) entries-IsShard

abbrev new_shard : Map Str Str
new_shard = (codes "x", codes "1") ∷ (codes "y", codes "2") ∷ []

file_replace_shard-file_read_shard_example :
    (m' : Map Str Str) × ((file_read_shard base16 kv 3
        (file_replace_shard base16 kv 3 new_shard one_shard)).1
      ≡ some m')
    × ((k : Str) → lookup k m' ≡ lookup k new_shard)
    × ((k : Str)
        → (file_get base16 kv 4 k (file_replace_shard base16 kv 3 new_shard one_shard)).1
          ≡ (if eqb 3 4 then lookup k new_shard else (file_get base16 kv 4 k one_shard).1))
file_replace_shard-file_read_shard_example =
    file_replace_shard-file_read_shard base16 base16-IsBase32 kv 3 4 new_shard one_shard
      (omega arith) (omega arith) (unfold keys_of elem beq_str in (refl, (refl, tt)))

abbrev new_map : Map Str Str
new_map = (codes "a/b", codes "new") ∷ (codes "c", codes "x") ∷ []

new_map-Distinct : Distinct (keys_of new_map)
unfolding keys_of elem beq_str
new_map-Distinct = (refl, (refl, tt))

-- A crash while the file of the second key is written
abbrev crashed : Disk
crashed = write_temp base16 kv 3 (codes "c") (codes "") (
    run_calls base16 kv 3
      (removes_all ∷ writes (codes "a/b") (codes "new") ∷ renames (codes "a/b") ∷ []) disk)

crash : Interrupted base16 kv 3 (replace_calls new_map) disk crashed
unfolding put_calls run_calls
crash = after' (after' (after' (within (wrote_some (codes "c") (codes "x") (codes "")))))

file_replace_shard-crash_example :
    (file_replace_shard base16 kv 3 new_map disk
      ≡ run_calls base16 kv 3 (replace_calls new_map) disk)
    × IsOldOrNew
        (file_get base16 kv 3 (codes "a/b") disk).1
        (lookup (codes "a/b") new_map)
        (file_get base16 kv 3 (codes "a/b") crashed).1
    × ((file_get base16 kv 4 (codes "a/b") crashed).1 ≡ (file_get base16 kv 4 (codes "a/b") disk).1)
file_replace_shard-crash_example =
    file_replace_shard-crash base16 base16-IsBase32 kv 3 (omega arith) 4 (codes "a/b") new_map disk
      crashed (omega arith) (omega arith) new_map-Distinct crash
