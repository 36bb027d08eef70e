-- ===== src/Engine/Manifest/Recovered.antt =====
-- Recovery from the file that Apply writes, whole or cut off in its last record.
use scoria_db.Base.{
  ℕ, zero, suc, ◌+◌, ◌-◌, ◌%◌, ◌^◌, ◌≤◌, ◌<◌, ◌≡◌, refl, ap, ◌∙◌, inl, inr, false, Option, some,
  List, [], ◌∷◌, ◌++◌, append-nil, append_assoc, arith, ltb, ◌==◌, ltb→lt, Bool-cases, length, take,
  All, length-append, ok, choose_else,
}
use scoria_db.Base.Bytes.{
  Bytes, le_bytes, split-append, split-short, length-le_bytes, le_value-uint32, length-take,
  take-append_past, le_value-le_bytes,
}
use scoria_db.Engine.Manifest.{
  VersionEdit, Manifest, fresh_manifest, apply_edit, number_from_one, header, record_of, write_edit,
  apply, recover_records, apply_edits, renumbered, recover_versioned, recover, manifest_magic,
  manifest_version,
}

module _ (marshal : VersionEdit → Bytes) (unmarshal : Bytes → Option VersionEdit)
    (decode_stream : Bytes → List VersionEdit) where
  -- encoding/json reads back what it wrote, and the length fits the prefix.
  pub record IsCodable (edit : VersionEdit) : Type 0 where
    pub read_back : unmarshal (marshal edit) ≡ some edit
    pub length_fits : length (marshal edit) < 2 ^ 32

  abbrev pub records : List VersionEdit → Bytes
  records [] = []
  records (edit ∷ edits) = record_of marshal edit ++ records edits

  abbrev pub applied : List VersionEdit → Manifest × Bytes → Manifest × Bytes
  applied [] here = here
  applied (edit ∷ edits) here = applied edits (apply marshal edit here)

  reads_record :
      (edit : VersionEdit) (fuel : ℕ) (rest : Bytes) (m : Manifest)
      → IsCodable edit
      → recover_records unmarshal decode_stream (suc fuel) (record_of marshal edit ++ rest) m
        ≡ recover_records unmarshal decode_stream fuel rest (apply_edit edit m)
  unfolding recover_records record_of
  reads_record edit fuel rest m c =
      let bytes = marshal edit in
      let prefix = le_bytes 4 (length bytes % 2 ^ 32) in
      rw
        (
          append_assoc prefix bytes rest,
          split-append 4 prefix (bytes ++ rest) (length-le_bytes 4 _),
          recover_records,
          le_value-uint32 (length bytes) c.length_fits,
          split-append (length bytes) bytes rest refl,
          c.read_back,
        )
        refl

  reads_torn_length :
      (rest : Bytes) (fuel : ℕ) (m : Manifest)
      → length rest < 4
      → recover_records unmarshal decode_stream (suc fuel) rest m ≡ ok m
  unfolding recover_records
  reads_torn_length rest fuel m l = rw (split-short 4 rest l, recover_records) refl

  reads_torn_data :
      (edit : VersionEdit) (fuel : ℕ) (rest : Bytes) (m : Manifest)
      → length rest < length (marshal edit)
      → IsCodable edit
      → recover_records unmarshal decode_stream
          (suc fuel)
          (le_bytes 4 (length (marshal edit) % 2 ^ 32) ++ rest)
          m
        ≡ ok m
  unfolding recover_records
  reads_torn_data edit fuel rest m l c =
      let bytes = marshal edit in
      rw
        (
          split-append 4 (le_bytes 4 (length bytes % 2 ^ 32)) rest (length-le_bytes 4 _),
          recover_records,
          le_value-uint32 (length bytes) c.length_fits,
          split-short (length bytes) rest l,
        )
        refl

  -- A record that is cut anywhere ends the loop.
  reads_torn :
      (edit : VersionEdit) (fuel n : ℕ) (m : Manifest)
      → IsCodable edit
      → n < length (record_of marshal edit)
      → recover_records unmarshal decode_stream (suc fuel) (take n (record_of marshal edit)) m
        ≡ ok m
  unfolding record_of
  reads_torn edit fuel n m c l =
      let bytes = marshal edit in
      let prefix = le_bytes 4 (length bytes % 2 ^ 32) in
      let taken : length (take n (prefix ++ bytes)) ≡ n =
        length-take n (prefix ++ bytes) (omega (arith, l)) in
      elim (Bool-cases (ltb n 4)) [
        | inl y ↦ reads_torn_length (take n (prefix ++ bytes)) fuel m (rw taken (ltb→lt n 4 y))
        | inr y ↦
            let e : n ≡ 4 + (n - 4) = ground (arith, y) in
            let short : n - 4 < length bytes = ground (
              arith,
              y,
              l,
              length-append {0} prefix bytes,
              length-le_bytes 4 (length bytes % 2 ^ 32),
            ) in
            let cut : take n (prefix ++ bytes) ≡ prefix ++ take (n - 4) bytes =
              ap (λ k. take k (prefix ++ bytes)) e
              ∙ take-append_past 4 (n - 4) prefix bytes (length-le_bytes 4 _) in
            rw cut (
              reads_torn_data edit fuel (take (n - 4) bytes) m
                (rw (length-take (n - 4) bytes (omega (arith, short))) short) c)
      ]

  recover_records-records :
      (edits : List VersionEdit) (next : VersionEdit) (n fuel : ℕ) (m : Manifest)
      → All IsCodable edits
      → IsCodable next
      → n < length (record_of marshal next)
      → length edits < fuel
      → recover_records unmarshal decode_stream fuel
          (records edits ++ take n (record_of marshal next))
          m
        ≡ ok (apply_edits edits m)
  unfolding apply_edits
  recover_records-records edits next n zero m h c l f = absurd (omega (arith, f))
  recover_records-records [] next n (suc fuel) m h c l f = reads_torn next fuel n m c l
  recover_records-records (edit ∷ edits) next n (suc fuel) m (k, h) c l f =
      rw (append_assoc (record_of marshal edit) (records edits) (take n (record_of marshal next))) (
        reads_record edit fuel (records edits ++ take n (record_of marshal next)) m k
        ∙ recover_records-records edits next n fuel (apply_edit edit m) h c l (omega (arith, f)))

  length-header : length header ≡ 8
  length-header =
      length-append {0} (le_bytes 4 manifest_magic) (le_bytes 4 manifest_version)
      ∙ omega (arith, length-le_bytes 4 manifest_magic, length-le_bytes 4 manifest_version)

  length-records : (edits : List VersionEdit) → length edits ≤ length (records edits)
  unfolding record_of
  length-records [] = omega arith
  length-records (edit ∷ edits) =
      let bytes = marshal edit in
      let prefix = le_bytes 4 (length bytes % 2 ^ 32) in
      omega (
        arith,
        length-append {0} (record_of marshal edit) (records edits),
        length-append {0} prefix bytes,
        length-le_bytes 4 (length bytes % 2 ^ 32),
        length-records edits,
      )

  recover-headed :
      (rest : Bytes)
      → recover unmarshal decode_stream (header ++ rest)
        ≡ renumbered
            (recover_records unmarshal decode_stream (suc (length rest)) rest fresh_manifest)
  unfolding recover recover_versioned
  recover-headed rest =
      let magic = le_bytes 4 manifest_magic in
      let version = le_bytes 4 manifest_version in
      rw
        (
          append_assoc magic version rest,
          choose_else (length (magic ++ (version ++ rest)) == 0) _ _ (headed (version ++ rest)),
          split-append 4 magic (version ++ rest) (length-le_bytes 4 manifest_magic),
          le_value-le_bytes 4 manifest_magic (omega arith),
          recover_versioned,
          split-append 4 version rest (length-le_bytes 4 manifest_version),
          le_value-le_bytes 4 manifest_version (omega arith),
        )
        refl
    where
      headed : (tail : Bytes) → (length (le_bytes 4 manifest_magic ++ tail) == 0) ≡ false
      headed tail = ground (
        arith,
        length-append {0} (le_bytes 4 manifest_magic) tail,
        length-le_bytes 4 manifest_magic,
      )

  number_from_one-apply_edit :
      (edit : VersionEdit) (m : Manifest)
      → number_from_one (apply_edit edit m) ≡ apply_edit edit (number_from_one m)
  unfolding apply_edit number_from_one
  number_from_one-apply_edit edit m = ground arith

  number_from_one-apply_edits :
      (edits : List VersionEdit) (m : Manifest)
      → number_from_one (apply_edits edits m) ≡ apply_edits edits (number_from_one m)
  unfolding apply_edits
  number_from_one-apply_edits [] m = refl
  number_from_one-apply_edits (edit ∷ edits) m =
      number_from_one-apply_edits edits (apply_edit edit m)
      ∙ ap (apply_edits edits) (number_from_one-apply_edit edit m)

  apply-nonempty :
      (edit : VersionEdit) (m : Manifest) (file : Bytes)
      → 0 < length file
      → apply marshal edit (m, file) ≡ (apply_edit edit m, file ++ record_of marshal edit)
  unfolding apply write_edit
  apply-nonempty edit m file l = rw (choose_else (length file == 0) _ _ (ground (arith, l))) refl

  file-applied :
      (edits : List VersionEdit) (m : Manifest) (file : Bytes)
      → 0 < length file
      → applied edits (m, file) ≡ (apply_edits edits m, file ++ records edits)
  unfolding apply_edits
  file-applied [] m file l = rw (append-nil file) refl
  file-applied (edit ∷ edits) m file l =
      let bytes = record_of marshal edit in
      ap (applied edits) (apply-nonempty edit m file l)
      ∙ file-applied edits (apply_edit edit m) (file ++ bytes)
          (omega (arith, l, length-append {0} file bytes))
      ∙ rw (append_assoc file bytes (records edits)) refl

  applied-new :
      (edit : VersionEdit) (edits : List VersionEdit) (m : Manifest)
      → applied (edit ∷ edits) (m, [])
        ≡ (apply_edits (edit ∷ edits) m, header ++ records (edit ∷ edits))
  unfolding apply write_edit apply_edits
  applied-new edit edits m =
      let bytes = record_of marshal edit in
      file-applied edits (apply_edit edit m) (header ++ bytes)
        (omega (arith, length-append {0} header bytes, length-header))
      ∙ rw (append_assoc header bytes (records edits)) refl

  -- The file of a new manifest, after one or more edits that were written, and a crash that wrote a
  -- part of the record of one more, is read back as the manifest with the written edits and without
  -- the torn one. The edits' JSON is read back as it was written, and is shorter than 4 GiB.
  pub recover-applied :
      (edit : VersionEdit) (edits : List VersionEdit) (torn : VersionEdit) (n : ℕ)
      → All IsCodable (edit ∷ edits)
      → IsCodable torn
      → n < length (record_of marshal torn)
      → let (m, file) = applied (edit ∷ edits) (number_from_one fresh_manifest, []) in
        recover unmarshal decode_stream (file ++ take n (record_of marshal torn)) ≡ ok m
  unfolding renumbered
  recover-applied edit edits torn n h c l =
      let es = edit ∷ edits in
      let tail = take n (record_of marshal torn) in
      rw
        (
          applied-new edit edits (number_from_one fresh_manifest),
          append_assoc header (records es) tail,
          recover-headed (records es ++ tail),
          recover_records-records es torn n (suc (length (records es ++ tail))) fresh_manifest h c l
              (omega (arith, length-records es, length-append {0} (records es) tail)),
        )
        (ap ok (number_from_one-apply_edits es fresh_manifest))
