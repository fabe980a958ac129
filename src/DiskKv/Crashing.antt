-- ===== src/DiskKv/Crashing.antt =====
-- A crash within `fileReplaceShard` of src/diskv/server.go, as a crash between two of its calls of the
-- operating system, or within one of them.
use mathlib.Core.Path.{subst}
use distributed_systems_engi.Base.{
  ◌≢◌, ℕ, ◌≤◌, ◌≡◌, refl, sym, ap, ◌∙◌, ◌⊎◌, inl, inr, none, Option, List, [], ◌∷◌, ◌++◌, arith,
  Str, str_eq, Map, is_some, lookup, insert, delete, if◌then◌else◌, keys_of, elem-keys_of, Distinct,
  max_int, eqb, Bool-cases,
}
use distributed_systems_engi.DiskKv.{
  Dir, Disk, Base32, IsBase32, DisKv, shard_name, shard_dir, files_of, file_get, write_temp,
  put_all, key_name, rename_temp, file_put, file_replace_shard,
}
use distributed_systems_engi.DiskKv.Shards.{
  stored, files_of-shard_dir, files_of-insert, file_get-stored, stored-write_temp,
}
use distributed_systems_engi.DiskKv.Replacing.{stored-put_all, files_of-remove}

-- Some of the files of a directory, as they were
abbrev pub IsPartOf : Dir → Dir → Type 0
IsPartOf d' d = (name : Str) → (lookup name d' ≡ none) ⊎ (lookup name d' ≡ lookup name d)

-- The calls of package os and ioutil that change the disk in `fileReplaceShard` and `filePut`
pub data Call : Type 0 where
  removes_all : Call
  writes : Str → Str → Call
  renames : Str → Call

-- The calls of `filePut` for each entry of a map, and those of `fileReplaceShard`
unfoldable pub put_calls : Map Str Str → List Call
put_calls [] = []
put_calls ((key, content) ∷ m) = writes key content ∷ renames key ∷ put_calls m

abbrev pub replace_calls : Map Str Str → List Call
replace_calls m = removes_all ∷ put_calls m

module _ (b : Base32) (kv : DisKv) (shard : ℕ) where
  abbrev pub run_call : Call → Disk → Disk
  run_call removes_all disk = delete (shard_name kv shard) (shard_dir kv shard disk)
  run_call (writes key content) disk = write_temp b kv shard key content disk
  run_call (renames key) disk = rename_temp b kv shard key disk

  unfoldable pub run_calls : List Call → Disk → Disk
  run_calls [] disk = disk
  run_calls (c ∷ cs) disk = run_calls cs (run_call c disk)

  -- What a crash within one call may leave: os.RemoveAll removes the files one by one, in any order, and
  -- ioutil.WriteFile may have written any part of the content, or anything else, to its file; os.Rename
  -- has happened or not.
  pub data Torn (disk : Disk) : Call → Disk → Type 0 where
    removed_some :
        (d : Dir)
        → IsPartOf d (files_of kv shard disk)
        → Torn disk removes_all (insert (shard_name kv shard) d (shard_dir kv shard disk))
    wrote_some :
        (key content part : Str)
        → Torn disk (writes key content) (write_temp b kv shard key part disk)

  -- The disks that a crash within calls one after the other may leave
  pub data Interrupted : List Call → Disk → Disk → Type 0 where
    before : {cs : List Call} {disk : Disk} → Interrupted cs disk disk
    within :
        {c : Call} {cs : List Call} {disk disk' : Disk}
        → Torn disk c disk'
        → Interrupted (c ∷ cs) disk disk'
    after' :
        {c : Call} {cs : List Call} {disk disk' : Disk}
        → Interrupted cs (run_call c disk) disk'
        → Interrupted (c ∷ cs) disk disk'

  -- A crash while the entries of a map are put: some are there, and of one more maybe the temporary file.
  data Putting (m : Map Str Str) (disk : Disk) : Disk → Type 0 where
    put_some : (m1 m2 : Map Str Str) → m ≡ m1 ++ m2 → Putting m disk (put_all b kv shard m1 disk)
    writing :
        (m1 m2 : Map Str Str) (key part : Str)
        → m ≡ m1 ++ m2
        → Putting m disk (write_temp b kv shard key part (put_all b kv shard m1 disk))

  Putting-next :
      (k v : Str) {m : Map Str Str} {disk disk' : Disk}
      → Putting m (file_put b kv shard k v disk) disk'
      → Putting ((k, v) ∷ m) disk disk'
  unfolding put_all
  Putting-next k v (put_some m1 m2 e) = put_some ((k, v) ∷ m1) m2 (ap (λ l. (k, v) ∷ l) e)
  Putting-next k v (writing m1 m2 key part e) =
      writing ((k, v) ∷ m1) m2 key part (ap (λ l. (k, v) ∷ l) e)

  none_left : {disk disk' : Disk} → Interrupted [] disk disk' → disk' ≡ disk
  none_left before = refl

  -- Where a crash within the two calls of `filePut`, or later, may be
  put_cases :
      {k v : Str} {cs : List Call} {disk disk' : Disk}
      → Interrupted (writes k v ∷ renames k ∷ cs) disk disk'
      → (disk' ≡ disk)
        ⊎ (((part : Str) × (disk' ≡ write_temp b kv shard k part disk))
            ⊎ Interrupted cs (file_put b kv shard k v disk) disk')
  unfolding file_put
  put_cases before = inl refl
  put_cases (within (wrote_some _ _ part)) = inr (inl (part, refl))
  put_cases {v} (after' before) = inr (inl (v, refl))
  put_cases (after' (within torn)) = elim torn [ ]
  put_cases (after' (after' rest)) = inr (inr rest)

  put_calls-Putting :
      (m : Map Str Str) (disk disk' : Disk)
      → Interrupted (put_calls m) disk disk'
      → Putting m disk disk'
  unfolding put_calls put_all
  put_calls-Putting [] disk disk' x =
      subst (Putting [] disk) (sym (none_left x)) (put_some [] [] refl)
  put_calls-Putting ((k, v) ∷ m) disk disk' x = elim (put_cases x) [
    | inl same ↦ subst (Putting ((k, v) ∷ m) disk) (sym same) (put_some [] ((k, v) ∷ m) refl)
    | inr (inl (part, wrote)) ↦
        subst (Putting ((k, v) ∷ m) disk) (sym wrote) (writing [] ((k, v) ∷ m) k part refl)
    | inr (inr rest) ↦
        Putting-next k v (put_calls-Putting m (file_put b kv shard k v disk) disk' rest)
  ]

  put_calls_lem :
      (m : Map Str Str) (disk : Disk) → run_calls (put_calls m) disk ≡ put_all b kv shard m disk
  unfolding run_calls put_calls put_all file_put
  put_calls_lem [] disk = refl
  put_calls_lem ((k, v) ∷ m) disk = put_calls_lem m (file_put b kv shard k v disk)

lookup-append :
    (k : Str) (m1 m2 : Map Str Str)
    → lookup k (m1 ++ m2) ≡ (if is_some (lookup k m1) then lookup k m1 else lookup k m2)
unfolding lookup
lookup-append k [] m2 = refl
lookup-append k ((j, v) ∷ m1) m2 = ground (arith, lookup-append k m1 m2)

Distinct-append : (m1 m2 : Map Str Str) → Distinct (keys_of (m1 ++ m2)) → Distinct (keys_of m1)
unfolding keys_of
Distinct-append [] m2 h = tt
Distinct-append ((j, v) ∷ m1) m2 h = (
  elem-keys_of j m1 ∙ ground (arith, sym (elem-keys_of j (m1 ++ m2)) ∙ h.0, lookup-append j m1 m2),
  Distinct-append m1 m2 h.1,
)

-- What a key may read as: nothing, what it read as before, or what the map has for it.
abbrev pub IsOldOrNew : Option Str → Option Str → Option Str → Type 0
IsOldOrNew old new now = (now ≡ none) ⊎ ((now ≡ old) ⊎ (now ≡ new))

module _ (b : Base32) (ok : IsBase32 b) (kv : DisKv) (shard : ℕ) (hs : shard ≤ max_int) where
  abbrev removed : Disk → Disk
  removed disk = delete (shard_name kv shard) (shard_dir kv shard disk)

  stored-removed :
      (t : ℕ) (k : Str) (disk : Disk)
      → t ≤ max_int
      → stored b kv t k (removed disk) ≡ (if eqb shard t then none else stored b kv t k disk)
  unfolding stored lookup
  stored-removed t k disk ht = ground (arith, files_of-remove b ok kv shard t disk hs ht)

  put_some-IsOldOrNew :
      (k : Str) (m m1 m2 : Map Str Str) (disk : Disk)
      → Distinct (keys_of m)
      → m ≡ m1 ++ m2
      → IsOldOrNew
          (stored b kv shard k disk)
          (lookup k m)
          (stored b kv shard k (put_all b kv shard m1 (removed disk)))
  put_some-IsOldOrNew k m m1 m2 disk d e =
      let d1 = Distinct-append m1 m2 (subst (λ x. Distinct (keys_of x)) e d) in
      let now = stored-put_all b ok kv shard shard m1 k (removed disk) hs hs d1 in
      let gone = stored-removed shard k disk hs in
      let all = ap (lookup k) e ∙ lookup-append k m1 m2 in
      elim (Bool-cases (is_some (lookup k m1))) [
        | inl put ↦ inr (inr (ground (arith, put, now, all)))
        | inr not_put ↦ inl (ground (arith, not_put, now, gone))
      ]

  put_some-other :
      (t : ℕ) (k : Str) (m m1 m2 : Map Str Str) (disk : Disk)
      → t ≤ max_int
      → shard ≢ t
      → Distinct (keys_of m)
      → m ≡ m1 ++ m2
      → stored b kv t k (put_all b kv shard m1 (removed disk)) ≡ stored b kv t k disk
  put_some-other t k m m1 m2 disk ht ne d e =
      let d1 = Distinct-append m1 m2 (subst (λ x. Distinct (keys_of x)) e d) in
      let now = stored-put_all b ok kv shard t m1 k (removed disk) hs ht d1 in
      ground (arith, now, stored-removed t k disk ht, ne)

  -- What files of the shard's directory are left, while they are removed
  left-IsOldOrNew :
      (k : Str) (new : Option Str) (files : Dir) (disk : Disk)
      → IsPartOf files (files_of kv shard disk)
      → IsOldOrNew
          (stored b kv shard k disk)
          new
          (stored b kv shard k (insert (shard_name kv shard) files (shard_dir kv shard disk)))
  unfolding stored
  left-IsOldOrNew k new files disk part =
      let now : files_of kv shard (insert (shard_name kv shard) files (shard_dir kv shard disk))
          ≡ files =
        files_of-insert kv shard shard files (shard_dir kv shard disk) hs hs ∙ ground arith in
      let reads = ap (lookup (key_name b k)) now in
      elim (part (key_name b k)) [
        | inl gone ↦ inl (reads ∙ gone)
        | inr kept ↦ inr (inl (reads ∙ kept))
      ]

  left-other :
      (t : ℕ) (k : Str) (files : Dir) (disk : Disk)
      → t ≤ max_int
      → shard ≢ t
      → stored b kv t k (insert (shard_name kv shard) files (shard_dir kv shard disk))
        ≡ stored b kv t k disk
  unfolding stored
  left-other t k files disk ht ne =
      let now : files_of kv t (insert (shard_name kv shard) files (shard_dir kv shard disk))
          ≡ files_of kv t (shard_dir kv shard disk) =
        files_of-insert kv shard t files (shard_dir kv shard disk) hs ht ∙ ground (arith, ne) in
      ap (lookup (key_name b k)) (now ∙ files_of-shard_dir kv shard t disk)

  Putting-stored :
      (t : ℕ) (k : Str) (m : Map Str Str) (disk disk' : Disk)
      → t ≤ max_int
      → shard ≢ t
      → Distinct (keys_of m)
      → Putting b kv shard m (removed disk) disk'
      → IsOldOrNew (stored b kv shard k disk) (lookup k m) (stored b kv shard k disk')
        × (stored b kv t k disk' ≡ stored b kv t k disk)
  Putting-stored t k m disk _ ht ne d (put_some m1 m2 e) =
      (put_some-IsOldOrNew k m m1 m2 disk d e, put_some-other t k m m1 m2 disk ht ne d e)
  Putting-stored t k m disk _ ht ne d (writing m1 m2 key part e) =
      let same = λ (s : ℕ) (h : s ≤ max_int).
        stored-write_temp b kv shard s key part k (put_all b kv shard m1 (removed disk)) hs h in
      (
        rw (same shard hs) (put_some-IsOldOrNew k m m1 m2 disk d e),
        same t ht ∙ put_some-other t k m m1 m2 disk ht ne d e,
      )

  Interrupted-stored :
      (t : ℕ) (k : Str) (m : Map Str Str) (disk disk' : Disk)
      → t ≤ max_int
      → shard ≢ t
      → Distinct (keys_of m)
      → Interrupted b kv shard (replace_calls m) disk disk'
      → IsOldOrNew (stored b kv shard k disk) (lookup k m) (stored b kv shard k disk')
        × (stored b kv t k disk' ≡ stored b kv t k disk)
  Interrupted-stored t k m disk _ ht ne d before = (inr (inl refl), refl)
  Interrupted-stored t k m disk _ ht ne d (within (removed_some files part)) =
      (left-IsOldOrNew k (lookup k m) files disk part, left-other t k files disk ht ne)
  Interrupted-stored t k m disk disk' ht ne d (after' rest) =
      Putting-stored t k m disk disk' ht ne d
        (put_calls-Putting b kv shard m (removed disk) disk' rest)

  -- `fileReplaceShard` is its calls one after the other. After a crash within these, with a map that has
  -- each key once, each key of the shard has no file, or reads as before, or as in the map; and each key of
  -- another shard reads as before. The shard numbers are within int.
  pub file_replace_shard-crash :
      (t : ℕ) (k : Str) (m : Map Str Str) (disk disk' : Disk)
      → t ≤ max_int
      → shard ≢ t
      → Distinct (keys_of m)
      → Interrupted b kv shard (replace_calls m) disk disk'
      → (file_replace_shard b kv shard m disk ≡ run_calls b kv shard (replace_calls m) disk)
        × IsOldOrNew (file_get b kv shard k disk).1 (lookup k m) (file_get b kv shard k disk').1
        × ((file_get b kv t k disk').1 ≡ (file_get b kv t k disk).1)
  file_replace_shard-crash t k m disk disk' ht ne d c =
      let (here, other) = Interrupted-stored t k m disk disk' ht ne d c in
      (
        unfold file_replace_shard run_calls in sym (put_calls_lem b kv shard m (removed disk)),
        rw (file_get-stored b kv shard k disk, file_get-stored b kv shard k disk') here,
        rw (file_get-stored b kv t k disk, file_get-stored b kv t k disk') other,
      )
