-- ===== src/Engine/Manifest.antt =====
-- internal/engine/manifest.go: the levels of SSTables and the file of edits that rebuilds them. The
-- methods run under the manifest's lock, and the file is its bytes: reads and writes that the
-- operating system refuses are left out. encoding/json is a parameter: Marshal, Unmarshal, and the
-- values that a Decoder yields before it fails.
pub mod Recovered
pub mod Levels
mod Runs
use scoria_db.Base.{
  ℕ, zero, suc, ◌+◌, ◌-◌, ◌%◌, ◌^◌, Option, none, some, List, [], ◌∷◌, ◌++◌, ltb, leb, ◌==◌,
  if◌then◌else◌, length, get_elem?, set, replicate, Result, ok, err,
}
use scoria_db.Base.Bytes.{Bytes, le_bytes, le_value, split}

abbrev pub manifest_magic : ℕ
manifest_magic = 1396920146

abbrev pub manifest_version : ℕ
manifest_version = 1

abbrev pub manifest_default_levels : ℕ
manifest_default_levels = 10

-- A level is an int that is never negative.
pub record SstableInfo : Type 0 where
  pub file_num : ℕ
  pub level : ℕ
  pub min_key : Bytes
  pub max_key : Bytes
  pub size : ℕ

pub record DeletedFile : Type 0 where
  pub file_num : ℕ
  pub level : ℕ

pub record VersionEdit : Type 0 where
  pub new_files : List SstableInfo
  pub deleted_files : List DeletedFile
  pub next_file_num : ℕ
  pub last_ts : ℕ

pub record Manifest : Type 0 where
  pub levels : List (List SstableInfo)
  pub next_file_num : ℕ
  pub last_ts : ℕ

-- The state that recover starts from.
unfoldable pub fresh_manifest : Manifest
fresh_manifest = record {
  levels = replicate manifest_default_levels [];
  next_file_num = 0;
  last_ts = 0;
}

-- `m.levels[level]`
abbrev pub level_or_empty : Option (List SstableInfo) → List SstableInfo
level_or_empty none = []
level_or_empty (some infos) = infos

-- The levels, made longer if `level` is out of range.
unfoldable pub grow_levels : ℕ → List (List SstableInfo) → List (List SstableInfo)
grow_levels level levels =
    if leb (length levels) level then levels ++ replicate (level + 1 - length levels) [] else levels

unfoldable pub add_file : SstableInfo → List (List SstableInfo) → List (List SstableInfo)
unfolding grow_levels
add_file info levels =
    let grown = grow_levels info.level levels in
    set grown info.level (level_or_empty (get_elem? grown info.level) ++ info ∷ [])

-- The first file of the number goes.
unfoldable pub remove_file : ℕ → List SstableInfo → List SstableInfo
remove_file file_num [] = []
remove_file file_num (info ∷ infos) =
    let rest = remove_file file_num infos in
    if info.file_num == file_num then infos else info ∷ rest

unfoldable pub delete_file : ℕ → ℕ → List (List SstableInfo) → List (List SstableInfo)
unfolding remove_file
delete_file file_num level levels = elim (get_elem? levels level) [
  | none ↦ levels
  | some infos ↦ set levels level (remove_file file_num infos)
]

unfoldable pub delete_files : List DeletedFile → List (List SstableInfo) → List (List SstableInfo)
delete_files [] levels = levels
delete_files (del ∷ dels) levels = delete_files dels (delete_file del.file_num del.level levels)

unfoldable pub add_files : List SstableInfo → List (List SstableInfo) → List (List SstableInfo)
add_files [] levels = levels
add_files (info ∷ infos) levels = add_files infos (add_file info levels)

unfoldable pub apply_edit : VersionEdit → Manifest → Manifest
unfolding delete_files add_files
apply_edit edit m = record {
  levels = add_files edit.new_files (delete_files edit.deleted_files m.levels);
  next_file_num = if ltb 0 edit.next_file_num then edit.next_file_num else m.next_file_num;
  last_ts = if ltb m.last_ts edit.last_ts then edit.last_ts else m.last_ts;
}

-- `if m.nextFileNum == 0 { m.nextFileNum = 1 }`
unfoldable pub number_from_one : Manifest → Manifest
number_from_one m = if m.next_file_num == 0 then record m { next_file_num = 1 } else m

-- NextFileNum, on a uint64
unfoldable pub take_file_num : Manifest → ℕ × Manifest
take_file_num m = (m.next_file_num, record m { next_file_num = (m.next_file_num + 1) % 2 ^ 64 })

unfoldable pub set_last_ts : ℕ → Manifest → Manifest
set_last_ts ts m = if ltb m.last_ts ts then record m { last_ts = ts } else m

abbrev pub header : Bytes
header = le_bytes 4 manifest_magic ++ le_bytes 4 manifest_version

pub data RecoverError : Type 0 where
  read_version : RecoverError
  unsupported_version : ℕ → RecoverError
  invalid_json : ℕ → RecoverError
  -- No Go value: the fuel ran out.
  stuck : RecoverError

unfoldable pub apply_edits : List VersionEdit → Manifest → Manifest
apply_edits [] m = m
apply_edits (edit ∷ edits) m = apply_edits edits (apply_edit edit m)

module _ (marshal : VersionEdit → Bytes) where
  -- The length prefix, a uint32, and the data of one edit
  unfoldable pub record_of : VersionEdit → Bytes
  record_of edit =
      let data_bytes = marshal edit in le_bytes 4 (length data_bytes % 2 ^ 32) ++ data_bytes

  unfoldable pub write_edit : VersionEdit → Bytes → Bytes
  unfolding record_of
  write_edit edit file = (if length file == 0 then file ++ header else file) ++ record_of edit

  -- Apply
  unfoldable pub apply : VersionEdit → Manifest × Bytes → Manifest × Bytes
  unfolding apply_edit write_edit
  apply edit (m, file) = (apply_edit edit m, write_edit edit file)

unfoldable pub renumbered : Result RecoverError Manifest → Result RecoverError Manifest
unfolding number_from_one
renumbered (ok m) = ok (number_from_one m)
renumbered (err e) = err e

module _ (unmarshal : Bytes → Option VersionEdit) (decode_stream : Bytes → List VersionEdit) where
  -- The loop over the records. A read that comes short at the end of the file, in a length or in the
  -- data, has read all that is left, and ends the loop.
  unfoldable pub recover_records : ℕ → Bytes → Manifest → Result RecoverError Manifest
  unfolding apply_edit
  recover_records zero rest m = err stuck
  recover_records (suc fuel) rest m = elim (split 4 rest) [
    | none ↦ ok m
    | some (len, rest) ↦ elim (split (le_value len) rest) [
      | none ↦ ok m
      | some (data_bytes, rest) ↦ elim (unmarshal data_bytes) [
        | some edit ↦ recover_records fuel rest (apply_edit edit m)
        | none ↦ if length rest == 0 then ok m else err (invalid_json (length rest))
      ]
    ]
  ]

  unfoldable pub recover_legacy : Bytes → Manifest
  unfolding fresh_manifest apply_edits number_from_one
  recover_legacy file = number_from_one (apply_edits (decode_stream file) fresh_manifest)

  -- Behind the magic number. Each round reads four bytes at least.
  unfoldable pub recover_versioned : Bytes → Result RecoverError Manifest
  unfolding recover_records fresh_manifest renumbered number_from_one
  recover_versioned rest = elim (split 4 rest) [
    | none ↦ err read_version
    | some (version, rest) ↦
        if le_value version == manifest_version
        then renumbered (recover_records (suc (length rest)) rest fresh_manifest)
        else err (unsupported_version (le_value version))
  ]

  unfoldable pub recover : Bytes → Result RecoverError Manifest
  unfolding recover_legacy recover_versioned
  recover file =
      if length file == 0 then ok (number_from_one fresh_manifest) else elim (split 4 file) [
        | none ↦ ok (recover_legacy file)
        | some (magic, rest) ↦
            if le_value magic == manifest_magic
            then recover_versioned rest
            else ok (recover_legacy file)
      ]
