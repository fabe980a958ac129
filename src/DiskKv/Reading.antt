-- ===== src/DiskKv/Reading.antt =====
-- Reading and replacing the files of src/diskv/server.go: one key, and a whole shard.
use mathlib.Core.Path.{subst}
use distributed_systems_engi.Base.{
  ℕ, ◌≤◌, ◌≡◌, refl, sym, ap, ◌∙◌, inl, inr, ◌⊎◌, true, ◌||◌, ◌&&◌, none, some, List, [], ◌∷◌,
  arith, ◌==◌, ==-iff, ==-self, str_eq, beq_str, Str, Map, or_zero, is_some, lookup, insert,
  lookup-insert, if◌then◌else◌, keys_of, elem, elem-keys_of, Option-cases, Bool-cases, max_int, eqb,
}
use distributed_systems_engi.DiskKv.{
  Dir, Disk, Base32, IsBase32, DisKv, shard_dir, files_of, key_name, temp_name, file_get,
  write_temp, file_put, cut, read_names, file_read_shard,
}
use distributed_systems_engi.DiskKv.Shards.{
  stored, key_name-same, temp_name-key_name, files_of-shard_dir, file_get-stored, stored-write_temp,
  stored-file_put,
}

module _ (b : Base32) (ok : IsBase32 b) (kv : DisKv) where
  -- `filePut` with shard numbers within int: after its write of the temporary file, whatever part of
  -- the content that has, each key of each shard reads as before; after all of it the key reads the
  -- content, and each other key as before.
  pub file_put-atomic :
      (s t : ℕ) (key part content k : Str) (disk : Disk)
      → s ≤ max_int
      → t ≤ max_int
      → ((file_get b kv t k (write_temp b kv s key part disk)).1 ≡ (file_get b kv t k disk).1)
        × ((file_get b kv t k (file_put b kv s key content disk)).1
            ≡ (if eqb s t && (key == k) then some content else (file_get b kv t k disk).1))
  file_put-atomic s t key part content k disk hs ht =
      let read = λ (d : Disk). file_get-stored b kv t k d in
      let before = read disk in
      (
        read (write_temp b kv s key part disk)
            ∙ stored-write_temp b kv s t key part k disk hs ht
            ∙ sym before,
        read (file_put b kv s key content disk)
            ∙ stored-file_put b kv ok s t key content k disk hs ht
            ∙ ap (λ o. if eqb s t && (key == k) then some content else o) (sym before),
      )

-- The name of a key's file, or of its temporary file
abbrev pub IsEntry : Base32 → Str → Type 0
IsEntry b name = (key : Str) × ((name ≡ key_name b key) ⊎ (name ≡ temp_name b key))

-- A directory with such files only
abbrev pub IsShard : Base32 → Dir → Type 0
IsShard b d = (name : Str) → elem name (keys_of d) ≡ true → IsEntry b name

module _ (b : Base32) (ok : IsBase32 b) where
  read_key :
      (d : Dir) (key : Str) (names : List Str) (m : Map Str Str)
      → is_some (lookup (key_name b key) d) ≡ true
      → read_names b d (key_name b key ∷ names) m
        ≡ read_names b d names (insert key (or_zero [] (lookup (key_name b key) d)) m)
  unfolding read_names cut key_name beq_str
  read_key d key names m h = elim (Option-cases (lookup (key_name b key) d)) [
    | inl e ↦ cc (e, h)
    | inr (c, e) ↦ ground (arith, ok.decode-encode key, e)
  ]

  read_temp :
      (d : Dir) (key : Str) (names : List Str) (m : Map Str Str)
      → read_names b d (temp_name b key ∷ names) m ≡ read_names b d names m
  unfolding read_names cut temp_name beq_str
  read_temp d key names m = refl

  -- Each name is that of an entry of the directory.
  abbrev AreEntries : Dir → List Str → Type 0
  AreEntries d names =
      (name : Str) → elem name names ≡ true → IsEntry b name × (is_some (lookup name d) ≡ true)

  read_key-lookup :
      (d : Dir) (key k name : Str) (names : List Str) (m : Map Str Str)
      → name ≡ key_name b key
      → is_some (lookup (key_name b key) d) ≡ true
      → (if elem (key_name b k) names
          then lookup (key_name b k) d
          else lookup k (insert key (or_zero [] (lookup (key_name b key) d)) m))
        ≡ (if (name == key_name b k) || elem (key_name b k) names
            then lookup (key_name b k) d
            else lookup k m)
  read_key-lookup d key k name names m e found =
      let put = lookup-insert key k (or_zero [] (lookup (key_name b key) d)) m in
      let test : (name == key_name b k) ≡ (key == k) =
        ap (λ n. n == key_name b k) e ∙ key_name-same b ok key k in
      elim (Bool-cases (key == k)) [
        | inl same ↦
            let e' = ap (λ n. lookup (key_name b n) d) ((==-iff key k).0 same) in
            ground (arith, test, put, same, e', found)
        | inr other ↦ ground (arith, test, put, other)
      ]

  -- The keys of the names read what the directory has, and the others what the map had.
  read_names-lookup :
      (d : Dir) (names : List Str) (m : Map Str Str)
      → AreEntries d names
      → (m' : Map Str Str) × (read_names b d names m ≡ some m')
        × ((k : Str)
            → lookup k m'
              ≡ (if elem (key_name b k) names then lookup (key_name b k) d else lookup k m))
  unfolding elem
  read_names-lookup d [] m h = (m, unfold read_names in refl, λ k. refl)
  read_names-lookup d (name ∷ names) m h =
      let rest : AreEntries d names = λ n e. h n (ground (arith, e)) in
      let (entry, found) = h name (ground (arith, ==-self name)) in
      let (key, which) = entry in
      elim which [
        | inl e ↦
            let found' : is_some (lookup (key_name b key) d) ≡ true =
              subst (λ n. is_some (lookup n d) ≡ true) e found in
            let (m', ran, sees) =
              read_names-lookup d names (insert key (or_zero [] (lookup (key_name b key) d)) m)
                rest in
            (
              m',
              ap (λ n. read_names b d (n ∷ names) m) e ∙ read_key d key names m found' ∙ ran,
              λ k. sees k ∙ read_key-lookup d key k name names m e found',
            )
        | inr e ↦
            let (m', ran, sees) = read_names-lookup d names m rest in
            (
              m',
              ap (λ n. read_names b d (n ∷ names) m) e ∙ read_temp d key names m ∙ ran,
              λ k.
                  sees k
                  ∙ ground (arith, ap (λ n. n == key_name b k) e, temp_name-key_name b key k),
            )
      ]

  -- `fileReadShard` of a shard with such files only: it does not fail, and its map has for each key what
  -- `fileGet` reads.
  pub file_read_shard-file_get :
      (kv : DisKv) (shard : ℕ) (disk : Disk)
      → IsShard b (files_of kv shard disk)
      → (m : Map Str Str) × ((file_read_shard b kv shard disk).1 ≡ some m)
        × ((k : Str) → lookup k m ≡ (file_get b kv shard k disk).1)
  unfolding file_read_shard
  file_read_shard-file_get kv shard disk h =
      let d = files_of kv shard disk in
      let same : files_of kv shard (shard_dir kv shard disk) ≡ d =
        files_of-shard_dir kv shard shard disk in
      let (m, ran, sees) =
        read_names-lookup d (keys_of d) [] (λ n e. (h n e, sym (elem-keys_of n d) ∙ e)) in
      (
        m,
        ap (λ d'. read_names b d' (keys_of d') []) same ∙ ran,
        λ k.
            let got : (file_get b kv shard k disk).1 ≡ lookup (key_name b k) d =
              unfold stored in file_get-stored b kv shard k disk in
            let empty : lookup {V = Str} k [] ≡ none = unfold lookup in refl in
            sees k ∙ ground (arith, elem-keys_of (key_name b k) d, got, empty),
      )
