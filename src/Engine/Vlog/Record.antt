-- ===== src/Engine/Vlog/Record.antt =====
-- A record of the value log is read through its pointer.
use scoria_db.Base.{
  ℕ, ◌+◌, ◌%◌, ◌^◌, ◌<◌, ◌≡◌, refl, sym, ap, ◌∙◌, false, not, ◌++◌, append_assoc, arith, ◌==◌,
  ==_refl, length, length-append, ok, err, choose_else, choose_then,
}
use scoria_db.Base.Bytes.{Bytes, be_bytes, be_value}
use scoria_db.Base.Bytes.{length-be_bytes, be_value-be_bytes, be_value-uint32}
use scoria_db.Base.Int.{pos}
use scoria_db.Base.Slices.{slice, slice-append, int_above-le}
use scoria_db.Engine.Wal.Crc.{checksum, checksum-lt}
use scoria_db.Engine.ValuePointer.{ValuePointer}
use scoria_db.Engine.Vlog.{
  VlogError, panic, out_of_range, size_mismatch, crc_mismatch, record_of, read_direct_locked,
}

pub length-record_of : (value : Bytes) → length (record_of value) ≡ 8 + length value
unfolding record_of
length-record_of value =
    let size = be_bytes 4 (length value % 2 ^ 32) in
    omega (
      arith,
      length-append {0} (be_bytes 4 (checksum value)) (size ++ value),
      length-append {0} size value,
      length-be_bytes 4 (checksum value),
      length-be_bytes 4 (length value % 2 ^ 32),
    )

abbrev pub pointer_to : Bytes → Bytes → ValuePointer
pointer_to front value = record { offset = pos (length front); size = pos (length value) }

differs_not : (n : ℕ) → not (n == n) ≡ false
differs_not n = ground arith

pub length-file :
    (front value back : Bytes)
    → length (front ++ (record_of value ++ back)) ≡ length front + (8 + length value) + length back
length-file front value back = omega (
  arith,
  length-append {0} front (record_of value ++ back),
  length-append {0} (record_of value) back,
  length-record_of value,
)

-- A record that stands in the log is read through its pointer.
module _ (front value back : Bytes) (value_fits : length value < 2 ^ 31)
    (file_fits : length front + (8 + length value) + length back < 2 ^ 63) where
  abbrev crc_bytes : Bytes
  crc_bytes = be_bytes 4 (checksum value)

  abbrev size_bytes : Bytes
  size_bytes = be_bytes 4 (length value % 2 ^ 32)

  abbrev file : Bytes
  file = front ++ (record_of value ++ back)

  crc_shape : file ≡ front ++ (crc_bytes ++ (size_bytes ++ (value ++ back)))
  unfolding record_of
  crc_shape =
      ap (λ l. front ++ l)
        (append_assoc crc_bytes (size_bytes ++ value) back
          ∙ ap (λ l. crc_bytes ++ l) (append_assoc size_bytes value back))

  size_shape : file ≡ (front ++ crc_bytes) ++ (size_bytes ++ (value ++ back))
  size_shape = crc_shape ∙ sym (append_assoc front crc_bytes (size_bytes ++ (value ++ back)))

  value_shape : file ≡ ((front ++ crc_bytes) ++ size_bytes) ++ (value ++ back)
  value_shape = size_shape ∙ sym (append_assoc (front ++ crc_bytes) size_bytes (value ++ back))

  length-to_size : length (front ++ crc_bytes) ≡ length front + 4
  length-to_size =
      omega (arith, length-append {0} front crc_bytes, length-be_bytes 4 (checksum value))

  length-to_value : length ((front ++ crc_bytes) ++ size_bytes) ≡ length front + 8
  length-to_value = omega (
    arith,
    length-to_size,
    length-append {0} (front ++ crc_bytes) size_bytes,
    length-be_bytes 4 (length value % 2 ^ 32),
  )

  pub read_direct_locked-record : read_direct_locked file (pointer_to front value) ≡ ok value
  unfolding read_direct_locked
  read_direct_locked-record =
      let start = length front in
      let end = (start + 8 + length value) % 2 ^ 64 in
      let at_size = (start + 4) % 2 ^ 64 in
      let at_value = (start + 8) % 2 ^ 64 in
      let crc : slice {E = VlogError} panic start at_size file ≡ ok crc_bytes = rw crc_shape (
        slice-append panic start at_size front crc_bytes (size_bytes ++ (value ++ back)) refl
          (omega (arith, file_fits, length-be_bytes 4 (checksum value)))) in
      let size : slice {E = VlogError} panic at_size at_value file ≡ ok size_bytes = rw size_shape (
        slice-append panic at_size at_value (front ++ crc_bytes) size_bytes (value ++ back)
          (omega (arith, file_fits, length-to_size))
          (omega (arith, file_fits, length-be_bytes 4 (length value % 2 ^ 32)))) in
      let content : slice {E = VlogError} panic at_value end file ≡ ok value = rw value_shape (
        slice-append panic at_value end ((front ++ crc_bytes) ++ size_bytes) value back
          (omega (arith, file_fits, length-to_value)) (omega (arith, file_fits))) in
      choose_else _ (err out_of_range) _
        (int_above-le end (length file) (omega (arith, file_fits, length-file front value back)))
      ∙ rw (crc, size)
          (choose_else (not (be_value size_bytes == length value)) (err size_mismatch) _ (
              rw (be_value-uint32 (length value) (omega (arith, value_fits)))
                (differs_not (length value)))
            ∙ rw content (
                choose_then (checksum value == be_value crc_bytes) (ok value) (err crc_mismatch) (
                  rw (be_value-be_bytes 4 (checksum value) (omega (arith, checksum-lt value)))
                    (==_refl (checksum value)))))
