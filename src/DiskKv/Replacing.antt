-- ===== src/DiskKv/Replacing.antt =====
-- Replacing the files of a shard of src/diskv/server.go, and reading them back.
use mathlib.Core.Path.{subst}
use distributed_systems_engi.Base.{
  ℕ, ◌≤◌, ◌≡◌, sym, ap, ◌∙◌, inl, inr, true, false, ◌&&◌, none, some, [], ◌∷◌, arith, ◌==◌, ==-iff,
  str_eq, Str, Map, is_some, lookup, insert, delete, lookup-insert, lookup-delete, if◌then◌else◌,
  keys_of, elem, elem-keys_of, keys_of-insert, Distinct, Bool-cases, max_int, eqb,
}
use distributed_systems_engi.DiskKv.{
  Disk, Base32, IsBase32, DisKv, shard_name, shard_dir, files_of, key_name, temp_name, file_get,
  file_put, file_read_shard, put_all, file_replace_shard,
}
use distributed_systems_engi.DiskKv.Shards.{
  stored, files_of-shard_dir, files_of-file_put, file_get-stored, stored-file_put, shard_name-same,
}
use distributed_systems_engi.DiskKv.Reading.{IsShard, file_read_shard-file_get}

module _ (b : Base32) (ok : IsBase32 b) where
  file_put-IsShard :
      (kv : DisKv) (shard : ℕ) (key content : Str) (disk : Disk)
      → shard ≤ max_int
      → IsShard b (files_of kv shard disk)
      → IsShard b (files_of kv shard (file_put b kv shard key content disk))
  file_put-IsShard kv shard key content disk hs h name e =
      let d = files_of kv shard disk in
      let temp = temp_name b key in
      let d1 = delete temp (insert temp content d) in
      let e' : elem name (keys_of (insert (key_name b key) content d1)) ≡ true =
        ap (λ x. elem name (keys_of x))
          (sym (files_of-file_put b kv shard shard key content disk hs hs ∙ ground arith))
        ∙ e in
      elim (Bool-cases (key_name b key == name)) [
        | inl same ↦ (key, inl (sym ((==-iff (key_name b key) name).0 same)))
        | inr other ↦ h name (
            ground (
              arith,
              e',
              other,
              keys_of-insert (key_name b key) name content d1,
              elem-keys_of name d1,
              lookup-delete temp name (insert temp content d),
              lookup-insert temp name content d,
              elem-keys_of name d,
            ))
      ]

  put_all-IsShard :
      (kv : DisKv) (shard : ℕ) (m : Map Str Str) (disk : Disk)
      → shard ≤ max_int
      → IsShard b (files_of kv shard disk)
      → IsShard b (files_of kv shard (put_all b kv shard m disk))
  unfolding put_all
  put_all-IsShard kv shard [] disk hs h = h
  put_all-IsShard kv shard ((k, v) ∷ m) disk hs h =
      put_all-IsShard kv shard m (file_put b kv shard k v disk) hs
        (file_put-IsShard kv shard k v disk hs h)

  pub stored-put_all :
      (kv : DisKv) (s t : ℕ) (m : Map Str Str) (k : Str) (disk : Disk)
      → s ≤ max_int
      → t ≤ max_int
      → Distinct (keys_of m)
      → stored b kv t k (put_all b kv s m disk)
        ≡ (if eqb s t && is_some (lookup k m) then lookup k m else stored b kv t k disk)
  unfolding put_all lookup keys_of
  stored-put_all kv s t [] k disk hs ht d = ground arith
  stored-put_all kv s t ((j, v) ∷ m) k disk hs ht d =
      let new : is_some (lookup j m) ≡ false = sym (elem-keys_of j m) ∙ d.0 in
      let rest = stored-put_all kv s t m k (file_put b kv s j v disk) hs ht d.1 in
      let put = stored-file_put b kv ok s t j v k disk hs ht in
      elim (Bool-cases (j == k)) [
        | inl same ↦
            let e = ap (λ n. lookup n m) ((==-iff j k).0 same) in
            ground (arith, same, rest, put, new, e)
        | inr other ↦ ground (arith, other, rest, put)
      ]

  -- What is in the directory of a shard after one was removed
  pub files_of-remove :
      (kv : DisKv) (s t : ℕ) (disk : Disk)
      → s ≤ max_int
      → t ≤ max_int
      → files_of kv t (delete (shard_name kv s) (shard_dir kv s disk))
        ≡ (if eqb s t then [] else files_of kv t disk)
  files_of-remove kv s t disk hs ht = ground (
    arith,
    lookup-delete (shard_name kv s) (shard_name kv t) (shard_dir kv s disk),
    shard_name-same kv s t hs ht,
    files_of-shard_dir kv s t disk,
  )

  stored-replace :
      (kv : DisKv) (s t : ℕ) (m : Map Str Str) (k : Str) (disk : Disk)
      → s ≤ max_int
      → t ≤ max_int
      → Distinct (keys_of m)
      → stored b kv t k (file_replace_shard b kv s m disk)
        ≡ (if eqb s t then lookup k m else stored b kv t k disk)
  unfolding file_replace_shard
  stored-replace kv s t m k disk hs ht d =
      let disk0 = delete (shard_name kv s) (shard_dir kv s disk) in
      let kept : stored b kv t k disk0 ≡ (if eqb s t then none else stored b kv t k disk) =
        unfold stored lookup in ground (arith, files_of-remove kv s t disk hs ht) in
      ground (arith, stored-put_all kv s t m k disk0 hs ht d, kept)

  -- `fileReplaceShard` with a map that has each key once, whatever was on the disk, and then
  -- `fileReadShard` of the same shard: the map comes back. Each key of the shard reads as in the map,
  -- and each key of each other shard as before. The shard numbers are within int.
  pub file_replace_shard-file_read_shard :
      (kv : DisKv) (shard t : ℕ) (m : Map Str Str) (disk : Disk)
      → shard ≤ max_int
      → t ≤ max_int
      → Distinct (keys_of m)
      → (m' : Map Str Str) × ((file_read_shard b kv shard (file_replace_shard b kv shard m disk)).1
          ≡ some m')
        × ((k : Str) → lookup k m' ≡ lookup k m)
        × ((k : Str)
            → (file_get b kv t k (file_replace_shard b kv shard m disk)).1
              ≡ (if eqb shard t then lookup k m else (file_get b kv t k disk).1))
  unfolding file_replace_shard
  file_replace_shard-file_read_shard kv shard t m disk hs ht d =
      let disk0 = delete (shard_name kv shard) (shard_dir kv shard disk) in
      let empty : files_of kv shard disk0 ≡ [] =
        files_of-remove kv shard shard disk hs hs ∙ ground arith in
      let all =
        put_all-IsShard kv shard m disk0 hs
          (subst (IsShard b) (sym empty) (unfold keys_of elem in λ n e. cc e)) in
      let (m', ran, sees) =
        file_read_shard-file_get b ok kv shard (put_all b kv shard m disk0) all in
      let read = λ (s : ℕ) (k : Str) (x : Disk). file_get-stored b kv s k x in
      (
        m',
        ran,
        λ k.
            sees k ∙ read shard k _ ∙ stored-replace kv shard shard m k disk hs hs d ∙ ground arith,
        λ k.
            read t k _
            ∙ stored-replace kv shard t m k disk hs ht d
            ∙ ap (λ o. if eqb shard t then lookup k m else o) (sym (read t k disk)),
      )
