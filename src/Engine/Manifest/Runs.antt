-- ===== src/Engine/Manifest/Runs.antt =====
-- Runs of the manifest, with a codec that knows two edits.
use scoria_db.Base.{
  ℕ, ◌≡◌, refl, Option, none, some, List, [], ◌∷◌, ◌++◌, arith, ◌==◌, if◌then◌else◌, take, ok,
}
use scoria_db.Base.Bytes.{Bytes, le_bytes}
use scoria_db.Engine.Manifest.{
  remove_file, add_file, delete_file, SstableInfo, VersionEdit, Manifest, fresh_manifest,
  apply_edit, number_from_one, record_of, recover,
}
use scoria_db.Engine.Manifest.Recovered.{IsCodable, applied, recover-applied}
use scoria_db.Engine.Manifest.Levels.{files_at, files_at-apply_edit}

abbrev file_of : ℕ → ℕ → SstableInfo
file_of num level = record {
  file_num = num;
  level = level;
  min_key = 1 ∷ [];
  max_key = 2 ∷ [];
  size = 64;
}

abbrev first_edit : VersionEdit
first_edit = record {
  new_files = file_of 1 0 ∷ file_of 2 0 ∷ [];
  deleted_files = [];
  next_file_num = 3;
  last_ts = 9;
}

-- Two files of level 0 are compacted into one of level 11.
abbrev second_edit : VersionEdit
second_edit = record {
  new_files = file_of 3 11 ∷ [];
  deleted_files = record { file_num = 1; level = 0 } ∷ record { file_num = 2; level = 0 } ∷ [];
  next_file_num = 4;
  last_ts = 8;
}

-- The first edit is written as {} and the second as [].
abbrev to_bytes : VersionEdit → Bytes
to_bytes edit = if edit.last_ts == 9 then 123 ∷ 125 ∷ [] else 91 ∷ 93 ∷ []

abbrev of_bytes : Bytes → Option VersionEdit
of_bytes [] = none
of_bytes (b ∷ bytes) =
    if b == 123 then some first_edit else if b == 91 then some second_edit else none

abbrev no_stream : Bytes → List VersionEdit
no_stream file = []

codable :
    (edit : VersionEdit)
    → of_bytes (to_bytes edit) ≡ some edit
    → IsCodable to_bytes of_bytes no_stream edit
codable edit e = record { read_back = e; length_fits = ground arith }

recover-applied_example :
    let (m, file) =
      applied to_bytes of_bytes no_stream
        (first_edit ∷ second_edit ∷ [])
        (number_from_one fresh_manifest, []) in
    recover of_bytes no_stream (file ++ take 5 (record_of to_bytes second_edit)) ≡ ok m
unfolding record_of le_bytes
recover-applied_example =
    recover-applied to_bytes of_bytes no_stream first_edit (second_edit ∷ []) second_edit 5
      (codable first_edit refl, (codable second_edit refl, tt)) (codable second_edit refl)
      (omega arith)

abbrev after_first : Manifest
after_first = apply_edit first_edit fresh_manifest

files_at-apply_edit_example : (files_at 0 (apply_edit second_edit after_first).levels) ≡ []
unfolding fresh_manifest apply_edit remove_file add_file
files_at-apply_edit_example = files_at-apply_edit second_edit after_first 0

compacted_to_level_11 : files_at 11 (apply_edit second_edit after_first).levels ≡ file_of 3 11 ∷ []
unfolding fresh_manifest apply_edit add_file delete_file
compacted_to_level_11 = refl
