-- ===== src/Engine/Sstable/Block.antt =====
-- internal/engine/sstable/writer.go and reader.go: a data block in the file, between its size and
-- its checksum. The file is the list of its bytes, as the mapping shows them.
pub mod RoundTrip
use scoria_db.Base.{
  ℕ, ◌+◌, ◌-◌, ◌%◌, ◌^◌, ◌++◌, ltb, ◌==◌, if◌then◌else◌, length, take, drop, Result, ok, err, ◌>>=◌,
}
use scoria_db.Base.Bytes.{Bytes, le_bytes, le_value, read}
use scoria_db.Base.Slices.{slice, int_above}
use scoria_db.Engine.Wal.Crc.{checksum}

-- The errors of the reader, and what is no error value: a run-time panic.
pub data TableError : Type 0 where
  out_of_range truncated too_small bad_magic short_block crc_mismatch panic : TableError

-- What Finish writes for a block.
unfoldable pub write_block : Bytes → Bytes
write_block bytes = le_bytes 4 (length bytes % 2 ^ 32) ++ (bytes ++ le_bytes 4 (checksum bytes))

unfoldable pub verify_block_crc : Bytes → Result TableError Bytes
verify_block_crc buf =
    let bytes = take (length buf - 4) buf in
    if ltb (length buf) 4
    then err short_block
    else if le_value (drop (length buf - 4) buf) == checksum bytes
    then ok bytes
    else err crc_mismatch

-- readBlockFromMmap behind the size: the sum is taken on uint64, the last bound on uint32.
unfoldable pub read_sized : Bytes → ℕ → ℕ → Result TableError Bytes
unfolding verify_block_crc
read_sized bytes offset block_size =
    let end = (offset + 4 + (block_size + 4)) % 2 ^ 64 in
    if int_above end (length bytes) then err out_of_range else (do
      block ← slice panic offset end bytes
      verified ← verify_block_crc (drop 4 block)
      slice panic 4 ((4 + block_size) % 2 ^ 32) block)

unfoldable pub read_block_from_mmap : Bytes → ℕ → Result TableError Bytes
unfolding read_sized
read_block_from_mmap bytes offset =
    if int_above ((offset + 4) % 2 ^ 64) (length bytes) then err out_of_range else (do
      front ← slice panic offset (length bytes) bytes
      (size, rest) ← read 4 panic front
      read_sized bytes offset (le_value size))
