-- ===== src/DiskKv/Shards.antt =====
-- The files of a shard of src/diskv/server.go, as a map from keys to values.
use mathlib.Core.List.{append_assoc}
use distributed_systems_engi.Base.{
  ℕ, ◌≤◌, ◌≡◌, refl, sym, ap, ◌∙◌, inl, inr, false, ◌&&◌, Option, some, [], ◌∷◌, ◌++◌, arith, ◌==◌,
  ==-iff, ==-self, ==-of_ne, str_eq, beq_str, Str, codes, itoa, lookup, insert, delete,
  lookup-insert, lookup-delete, if◌then◌else◌, Option-cases, Bool-cases, append-cancel, max_int,
  split, split-append, itoa-Lacks, itoa-injective, eqb, ℕ_discrete,
}
use distributed_systems_engi.DiskKv.{
  Dir, Disk, Base32, IsBase32, DisKv, shard_name, shard_dir, files_of, key_name, temp_name,
  file_get, write_temp, rename_temp, file_put,
}

-- What the files of a shard hold for a key
unfoldable pub stored : Base32 → DisKv → ℕ → Str → Disk → Option Str
stored b kv shard key disk = lookup (key_name b key) (files_of kv shard disk)

module _ (b : Base32) (ok : IsBase32 b) where
  encode_key-injective : (k l : Str) → b.encode_key k ≡ b.encode_key l → k ≡ l
  encode_key-injective k l e =
      ground (arith, ap b.decode_key e, ok.decode-encode k, ok.decode-encode l)

  key_name-injective : (k l : Str) → key_name b k ≡ key_name b l → k ≡ l
  unfolding key_name
  key_name-injective k l e =
      encode_key-injective k l (append-cancel (codes "key-") (b.encode_key k) (b.encode_key l) e)

  pub key_name-same : (k l : Str) → (key_name b k == key_name b l) ≡ (k == l)
  key_name-same k l = elim (Bool-cases (k == l)) [
    | inl same ↦
        (==-iff (key_name b k) (key_name b l)).1 (ap (key_name b) ((==-iff k l).0 same)) ∙ sym same
    | inr other ↦
        ==-of_ne (key_name b k) (key_name b l)
          (λ e. cc (other, (==-iff k l).1 (key_name-injective k l e)))
        ∙ sym other
  ]

pub temp_name-key_name : (b : Base32) (k l : Str) → (temp_name b k == key_name b l) ≡ false
unfolding key_name temp_name beq_str
temp_name-key_name b k l = refl

shard_name-injective :
    (kv : DisKv) (s t : ℕ) → s ≤ max_int → t ≤ max_int → shard_name kv s ≡ shard_name kv t → s ≡ t
unfolding shard_name
shard_name-injective kv s t hs ht e =
    let pre = kv.dir ++ codes "/shard-" in
    let slash = codes "/" in
    let tails : itoa s ++ slash ≡ itoa t ++ slash =
      append-cancel pre (itoa s ++ slash) (itoa t ++ slash)
        (sym (append_assoc pre (itoa s) slash) ∙ e ∙ append_assoc pre (itoa t) slash) in
    let lacks = λ (n : ℕ). itoa-Lacks 47 n (omega arith) in
    let pieces : itoa s ∷ split 47 [] ≡ itoa t ∷ split 47 [] =
      sym (split-append 47 (itoa s) [] (lacks s))
      ∙ ap (split 47) tails
      ∙ split-append 47 (itoa t) [] (lacks t) in
    itoa-injective s t hs ht (cc pieces)

pub shard_name-same :
    (kv : DisKv) (s t : ℕ)
    → s ≤ max_int
    → t ≤ max_int
    → (shard_name kv s == shard_name kv t) ≡ eqb s t
shard_name-same kv s t hs ht = elim (ℕ_discrete s t) [
  | yes e ↦ (==-iff (shard_name kv s) (shard_name kv t)).1 (ap (shard_name kv) e) ∙ ground arith
  | no ne ↦
      ==-of_ne (shard_name kv s) (shard_name kv t) (λ e. ne (shard_name-injective kv s t hs ht e))
      ∙ ground arith
]

-- Making the directory of a shard changes what is in none.
pub files_of-shard_dir :
    (kv : DisKv) (s t : ℕ) (disk : Disk) → files_of kv t (shard_dir kv s disk) ≡ files_of kv t disk
unfolding shard_dir
files_of-shard_dir kv s t disk = elim (Option-cases (lookup (shard_name kv s) disk)) [
  | inl e ↦
      let made = lookup-insert (shard_name kv s) (shard_name kv t) [] disk in
      elim (Bool-cases (shard_name kv s == shard_name kv t)) [
        | inl same ↦
            let e' =
              ap (λ n. lookup n disk) ((==-iff (shard_name kv s) (shard_name kv t)).0 same) in
            ground (arith, e, e', same, made)
        | inr other ↦ ground (arith, e, other, made)
      ]
  | inr (d, e) ↦ ground (arith, e)
]

-- What is in the directory of a shard after one was written
pub files_of-insert :
    (kv : DisKv) (s t : ℕ) (d : Dir) (disk : Disk)
    → s ≤ max_int
    → t ≤ max_int
    → files_of kv t (insert (shard_name kv s) d disk) ≡ (if eqb s t then d else files_of kv t disk)
files_of-insert kv s t d disk hs ht =
    ground (
      arith,
      lookup-insert (shard_name kv s) (shard_name kv t) d disk,
      shard_name-same kv s t hs ht,
    )

module _ (b : Base32) (kv : DisKv) where
  pub files_of-write_temp :
      (s t : ℕ) (key content : Str) (disk : Disk)
      → s ≤ max_int
      → t ≤ max_int
      → files_of kv t (write_temp b kv s key content disk) ≡ (
          if eqb s t
          then insert (temp_name b key) content (files_of kv s disk)
          else files_of kv t disk)
  unfolding write_temp
  files_of-write_temp s t key content disk hs ht =
      let disk' = shard_dir kv s disk in
      files_of-insert kv s t (insert (temp_name b key) content (files_of kv s disk')) disk' hs ht
      ∙ ground (arith, files_of-shard_dir kv s s disk, files_of-shard_dir kv s t disk)

  pub files_of-file_put :
      (s t : ℕ) (key content : Str) (disk : Disk)
      → s ≤ max_int
      → t ≤ max_int
      → files_of kv t (file_put b kv s key content disk) ≡ (
          if eqb s t
          then insert
              (key_name b key)
              content
              (delete (temp_name b key) (insert (temp_name b key) content (files_of kv s disk)))
          else files_of kv t disk)
  unfolding file_put rename_temp
  files_of-file_put s t key content disk hs ht =
      let disk1 = write_temp b kv s key content disk in
      let d = insert (temp_name b key) content (files_of kv s disk) in
      let here : files_of kv s disk1 ≡ d =
        files_of-write_temp s s key content disk hs hs ∙ ground arith in
      let there = files_of-write_temp s t key content disk hs ht in
      let found : lookup (temp_name b key) (files_of kv s disk1) ≡ some content =
        ap (lookup (temp_name b key)) here
        ∙ lookup-insert (temp_name b key) (temp_name b key) content (files_of kv s disk)
        ∙ ground (arith, ==-self (temp_name b key)) in
      let put =
        files_of-insert kv s t
          (insert (key_name b key) content (delete (temp_name b key) (files_of kv s disk1))) disk1
          hs ht in
      ground (arith, found, here, there, put)

  pub file_get-stored :
      (t : ℕ) (k : Str) (disk : Disk) → (file_get b kv t k disk).1 ≡ stored b kv t k disk
  unfolding file_get stored
  file_get-stored t k disk = ap (lookup (key_name b k)) (files_of-shard_dir kv t t disk)

  pub stored-write_temp :
      (s t : ℕ) (key content k : Str) (disk : Disk)
      → s ≤ max_int
      → t ≤ max_int
      → stored b kv t k (write_temp b kv s key content disk) ≡ stored b kv t k disk
  unfolding stored
  stored-write_temp s t key content k disk hs ht =
      ap (lookup (key_name b k)) (files_of-write_temp s t key content disk hs ht)
      ∙ elim (ℕ_discrete s t) [
        | yes e ↦
            let same = ap (λ n. lookup (key_name b k) (files_of kv n disk)) e in
            ground (
              arith,
              same,
              lookup-insert (temp_name b key) (key_name b k) content (files_of kv s disk),
              temp_name-key_name b key k,
            )
        | no ne ↦ ground arith
      ]

  pub stored-file_put :
      (ok : IsBase32 b) (s t : ℕ) (key content k : Str) (disk : Disk)
      → s ≤ max_int
      → t ≤ max_int
      → stored b kv t k (file_put b kv s key content disk)
        ≡ (if eqb s t && (key == k) then some content else stored b kv t k disk)
  unfolding stored
  stored-file_put ok s t key content k disk hs ht =
      let d = files_of kv s disk in
      let temp = temp_name b key in
      ap (lookup (key_name b k)) (files_of-file_put s t key content disk hs ht)
      ∙ elim (ℕ_discrete s t) [
        | yes e ↦
            let same = ap (λ n. lookup (key_name b k) (files_of kv n disk)) e in
            ground (
              arith,
              same,
              lookup-insert (key_name b key) (key_name b k) content
                  (delete temp (insert temp content d)),
              lookup-delete temp (key_name b k) (insert temp content d),
              lookup-insert temp (key_name b k) content d,
              key_name-same b ok key k,
              temp_name-key_name b key k,
            )
        | no ne ↦ ground arith
      ]
