-- ===== src/Engine/Sstable/Block/RoundTrip.antt =====
-- A block is read back as it was written.
use scoria_db.Base.{
  ◌+◌, ◌-◌, ◌%◌, ◌^◌, ◌<◌, ◌≡◌, refl, ap, ◌∙◌, true, ◌++◌, append_assoc, arith, ltb, ◌==◌, ==_refl,
  length, take, drop, length-append, Result, ok, err, choose_else, choose_then,
}
use scoria_db.Base.Bytes.{Bytes, le_bytes, le_value, read}
use scoria_db.Base.Bytes.{
  read_le, le_value-uint32, length-le_bytes, take-append_of_length, drop-append_of_length,
  le_value-le_bytes,
}
use scoria_db.Base.Slices.{slice, slice-append, slice_to_end, int_above-le}
use scoria_db.Engine.Wal.Crc.{checksum, checksum-lt}
use scoria_db.Engine.Sstable.Block.{
  TableError, panic, write_block, verify_block_crc, read_sized, read_block_from_mmap, out_of_range,
  short_block, crc_mismatch,
}

pub length-write_block : (block : Bytes) → length (write_block block) ≡ length block + 8
unfolding write_block
length-write_block block =
    let crc = le_bytes 4 (checksum block) in
    omega (
      arith,
      length-append {0} (le_bytes 4 (length block % 2 ^ 32)) (block ++ crc),
      length-append {0} block crc,
      length-le_bytes 4 (length block % 2 ^ 32),
      length-le_bytes 4 (checksum block),
    )

verify_block_crc-checksum :
    (block : Bytes) → verify_block_crc (block ++ le_bytes 4 (checksum block)) ≡ ok block
unfolding verify_block_crc
verify_block_crc-checksum block =
    let crc = le_bytes 4 (checksum block) in
    let buf = block ++ crc in
    let len : length buf ≡ length block + 4 =
      length-append {0} block crc
      ∙ ap (λ n. length block + n) (length-le_bytes 4 (checksum block)) in
    let cut : length block ≡ length buf - 4 = omega (arith, len) in
    let front : take (length buf - 4) buf ≡ block =
      take-append_of_length (length buf - 4) block crc cut in
    let back : drop (length buf - 4) buf ≡ crc =
      drop-append_of_length (length buf - 4) block crc cut in
    let same : (le_value (drop (length buf - 4) buf) == checksum (take (length buf - 4) buf))
        ≡ true =
      rw (front, back, le_value-le_bytes 4 (checksum block) (omega (arith, checksum-lt block)))
        (==_refl (checksum block)) in
    choose_else (ltb (length buf) 4) (err short_block) _ (ground (arith, len))
    ∙ choose_then _ (ok (take (length buf - 4) buf)) (err crc_mismatch) same
    ∙ ap {B = Result TableError Bytes} (λ t. ok t) front

module _ (before block after : Bytes) (block_fits : length block + 4 < 2 ^ 32)
    (file_fits : length before + (length block + 8) + length after < 2 ^ 63) where
  file : Bytes
  file = before ++ (write_block block ++ after)

  length-file : length file ≡ length before + (length block + 8) + length after
  unfolding file
  length-file = omega (
    arith,
    length-append {0} before (write_block block ++ after),
    length-append {0} (write_block block) after,
    length-write_block block,
  )

  read_sized-write_block : read_sized file (length before) (length block) ≡ ok block
  unfolding read_sized file write_block
  read_sized-write_block =
      let end = (length before + 4 + (length block + 4)) % 2 ^ 64 in
      let inside : end ≡ length before + (length block + 8) = omega (arith, file_fits) in
      let whole =
        slice-append panic (length before) end before (write_block block) after refl
          (omega (arith, inside, length-write_block block)) in
      let crc = le_bytes 4 (checksum block) in
      let size = le_bytes 4 (length block % 2 ^ 32) in
      let behind : drop 4 (write_block block) ≡ block ++ crc =
        drop-append_of_length 4 size (block ++ crc) (length-le_bytes 4 (length block % 2 ^ 32)) in
      let last : slice panic 4 ((4 + length block) % 2 ^ 32) (write_block block) ≡ ok block =
        slice-append panic 4 ((4 + length block) % 2 ^ 32) size block crc
          (length-le_bytes 4 (length block % 2 ^ 32)) (omega (arith, block_fits)) in
      choose_else _ (err out_of_range) _
        (int_above-le end (length file) (omega (arith, inside, length-file)))
      ∙ rw (whole, behind, verify_block_crc-checksum block) last

  size_of_block :
      read {E = TableError} 4 panic (write_block block ++ after)
      ≡ ok (le_bytes 4 (length block % 2 ^ 32), (block ++ le_bytes 4 (checksum block)) ++ after)
  unfolding write_block
  size_of_block =
      let size = le_bytes 4 (length block % 2 ^ 32) in
      let tail = block ++ le_bytes 4 (checksum block) in
      rw (append_assoc size tail after) (read_le 4 (length block % 2 ^ 32) panic (tail ++ after))

  -- A block that Finish wrote is read from its offset as the data that it was written from, whatever
  -- stands before and after it, if it is shorter than 2 ^ 32 - 4 bytes and the file than 2 ^ 63.
  pub read_block_from_mmap-write_block :
      read_block_from_mmap (before ++ (write_block block ++ after)) (length before) ≡ ok block
  unfolding read_block_from_mmap file
  read_block_from_mmap-write_block =
      let start = (length before + 4) % 2 ^ 64 in
      choose_else _ (err out_of_range) _
        (int_above-le start (length file) (omega (arith, file_fits, length-file)))
      ∙ rw
          (
            slice_to_end panic (length before) (length file) before (write_block block ++ after)
                refl refl,
            size_of_block,
            le_value-uint32 (length block) (omega (arith, block_fits)),
          )
          read_sized-write_block
