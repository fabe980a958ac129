-- ===== src/DiskKv.antt =====
-- src/diskv/server.go: the files of a replica of the disk-backed key/value service, a directory for
-- each shard. base32 is a parameter. A text is a list of bytes, and `none` is a panic, a log.Fatalf
-- or the error of a file that is not there; the disk itself does not fail.
pub mod Shards
pub mod Reading
pub mod Replacing
pub mod Crashing
pub mod Server
pub mod Clerk
mod Tests
use distributed_systems_engi.Base.{
  ℕ, zero, suc, ◌≡◌, Bool, true, false, Option, none, some, List, [], ◌∷◌, ◌++◌, ◌==◌, str_eq, Str,
  codes, itoa, Map, or_zero, lookup, insert, delete, keys_of, if◌then◌else◌,
}

-- Names of files and their contents
abbrev pub Dir : Type 0
Dir = Map Str Str

-- Names of directories and what is in them. The system reads two slashes in a path as one.
abbrev pub Disk : Type 0
Disk = Map Str Dir

-- base32.StdEncoding, as `encodeKey` and `decodeKey` use it
pub record Base32 : Type 0 where
  pub encode_key : Str → Str
  pub decode_key : Str → Option Str

-- What Go's base32 promises: a text that was encoded is decoded.
pub record IsBase32 (b : Base32) : Type 0 where
  pub decode-encode : (key : Str) → b.decode_key (b.encode_key key) ≡ some key

pub record DisKv : Type 0 where
  pub dir : Str

unfoldable pub shard_name : DisKv → ℕ → Str
shard_name kv shard = kv.dir ++ codes "/shard-" ++ itoa shard ++ codes "/"

-- `shardDir`: the directory is made if there is none.
unfoldable pub shard_dir : DisKv → ℕ → Disk → Disk
unfolding shard_name
shard_dir kv shard disk = elim (lookup (shard_name kv shard) disk) [
  | none ↦ insert (shard_name kv shard) [] disk
  | some d ↦ disk
]

-- What is in a directory; nothing where there is none.
abbrev pub files_of : DisKv → ℕ → Disk → Dir
files_of kv shard disk = or_zero [] (lookup (shard_name kv shard) disk)

unfoldable pub key_name : Base32 → Str → Str
key_name b key = codes "key-" ++ b.encode_key key

unfoldable pub temp_name : Base32 → Str → Str
temp_name b key = codes "temp-" ++ b.encode_key key

-- `fileGet`, with the disk that it leaves
unfoldable pub file_get : Base32 → DisKv → ℕ → Str → Disk → Disk × Option Str
unfolding shard_dir key_name
file_get b kv shard key disk =
    let disk' = shard_dir kv shard disk in
    (disk', lookup (key_name b key) (files_of kv shard disk'))

-- ioutil.WriteFile of `filePut`: to the file with the name "temp-" and the key
unfoldable pub write_temp : Base32 → DisKv → ℕ → Str → Str → Disk → Disk
unfolding shard_dir temp_name
write_temp b kv shard key content disk =
    let disk' = shard_dir kv shard disk in
    insert (shard_name kv shard) (insert (temp_name b key) content (files_of kv shard disk')) disk'

-- os.Rename of `filePut`: the file replaces the one with the name "key-" and the key.
unfoldable pub rename_temp : Base32 → DisKv → ℕ → Str → Disk → Disk
unfolding key_name temp_name
rename_temp b kv shard key disk =
    let d = files_of kv shard disk in
    elim (lookup (temp_name b key) d) [
      | none ↦ disk
      | some content ↦
          insert (shard_name kv shard)
            (insert (key_name b key) content (delete (temp_name b key) d)) disk
    ]

unfoldable pub file_put : Base32 → DisKv → ℕ → Str → Str → Disk → Disk
unfolding write_temp rename_temp
file_put b kv shard key content disk =
    rename_temp b kv shard key (write_temp b kv shard key content disk)

-- n1[:n] and n1[n:]; `none` where the name is shorter.
unfoldable pub cut : ℕ → Str → Option (Str × Str)
cut zero s = some ([], s)
cut (suc n) [] = none
cut (suc n) (c ∷ s) = elim (cut n s) [ none ↦ none | some p ↦ some (c ∷ p.0, p.1) ]

-- The loop of `fileReadShard` over the names in a directory
unfoldable pub read_names : Base32 → Dir → List Str → Map Str Str → Option (Map Str Str)
unfolding cut key_name
read_names b d [] m = some m
read_names b d (name ∷ names) m = elim (cut 4 name) [
  | none ↦ none
  | some p ↦
      if p.0 == codes "key-"
      then elim (b.decode_key p.1) [
        | none ↦ none
        | some key ↦ elim (lookup (key_name b key) d) [
          | none ↦ none
          | some content ↦ read_names b d names (insert key content m)
        ]
      ]
      else read_names b d names m
]

unfoldable pub file_read_shard : Base32 → DisKv → ℕ → Disk → Disk × Option (Map Str Str)
unfolding shard_dir read_names keys_of
file_read_shard b kv shard disk =
    let disk' = shard_dir kv shard disk in
    let d = files_of kv shard disk' in (disk', read_names b d (keys_of d) [])

unfoldable pub put_all : Base32 → DisKv → ℕ → Map Str Str → Disk → Disk
unfolding file_put
put_all b kv shard [] disk = disk
put_all b kv shard ((k, v) ∷ m) disk = put_all b kv shard m (file_put b kv shard k v disk)

-- `fileReplaceShard`: os.RemoveAll, and `filePut` for each entry of the map
unfoldable pub file_replace_shard : Base32 → DisKv → ℕ → Map Str Str → Disk → Disk
unfolding shard_dir put_all
file_replace_shard b kv shard m disk =
    put_all b kv shard m (delete (shard_name kv shard) (shard_dir kv shard disk))
