-- ===== src/Engine/Vlog.antt =====
-- internal/engine/vlog.go: the value log. Its file, which both mappings show, is the list of its bytes.
-- The operating system's calls do not fail, but for the growth of the file.
pub mod Record
pub mod Stored
pub mod Written
pub mod Collected
mod Runs
use scoria_db.Base.{
  ℕ, zero, suc, ◌+◌, ◌-◌, ◌*◌, ◌/◌, ◌%◌, ◌^◌, Bool, true, false, not, ◌||◌, List, [], ◌∷◌, ◌++◌,
  ltb, leb, ◌==◌, if◌then◌else◌, length, take, drop, replicate, Result, ok, err, ◌>>=◌,
}
use scoria_db.Base.Bytes.{Bytes, be_bytes, be_value}
use scoria_db.Base.Int.{pos, negsuc, to_unsigned, of_unsigned}
use scoria_db.Base.Slices.{slice, int_above}
use scoria_db.Engine.Wal.Crc.{checksum}
use scoria_db.Engine.ValuePointer.{ValuePointer}

abbrev pub vlog_magic : ℕ
vlog_magic = 0x53434F52

abbrev pub vlog_version : ℕ
vlog_version = 1

abbrev pub max_inline_size : ℕ
max_inline_size = 64

-- `mmapSize` is the length of the mapping.
pub record VlogImpl : Type 0 where
  pub bytes : Bytes
  pub data_size : ℕ
  pub closed : Bool

-- The last is a run-time panic.
pub data VlogError : Type 0 where
  vlog_closed no_capacity zero_sized out_of_range size_mismatch crc_mismatch short_header panic :
      VlogError

unfoldable pub align_to : ℕ → ℕ → ℕ
align_to size align = if size % align == 0 then size else (size / align + 1) * align

unfoldable pub header : Bytes
header = be_bytes 4 vlog_magic ++ be_bytes 4 vlog_version

-- Truncate to a larger size fills up with zeros.
unfoldable pub extend_file : ℕ → Bytes → Bytes
extend_file size bytes = bytes ++ replicate (size - length bytes) 0

-- The mapping of a log with `data_size` bytes in use; `can_grow` tells whether Truncate succeeds.
unfoldable pub mapped : (ℕ → Bool) → ℕ → Bytes → ℕ → Result VlogError VlogImpl
unfolding align_to extend_file
mapped can_grow extend_size bytes data_size =
    let aligned = align_to data_size extend_size in
    let size = if ltb aligned extend_size then extend_size else aligned in
    if can_grow size
    then ok (record { bytes = extend_file size bytes; data_size = data_size; closed = false })
    else err no_capacity

-- OpenVLog on the bytes of the file. A file with another header is removed and made anew.
unfoldable pub open_vlog : (ℕ → Bool) → ℕ → Bytes → Result VlogError VlogImpl
unfolding mapped header
open_vlog can_grow extend_size [] = mapped can_grow extend_size header 8
open_vlog can_grow extend_size (b ∷ rest) =
    let file = b ∷ rest in
    let magic = be_value (take 4 file) in
    let version = be_value (take 4 (drop 4 file)) in
    if ltb (length file) 8
    then err short_header
    else if not (magic == vlog_magic) || not (version == vlog_version)
    then mapped can_grow extend_size header 8
    else mapped can_grow extend_size file (length file)

-- One record: the checksum, the size and the value.
unfoldable pub record_of : Bytes → Bytes
record_of value = be_bytes 4 (checksum value) ++ (be_bytes 4 (length value % 2 ^ 32) ++ value)

-- The writes of Write into the mapping.
unfoldable pub put_record : Bytes → ℕ → Bytes → Bytes
unfolding record_of
put_record bytes offset value =
    take offset bytes ++ (record_of value ++ drop (offset + (8 + length value)) bytes)

-- extendMmap
unfoldable pub extend_mmap : (ℕ → Bool) → ℕ → ℕ → VlogImpl → Result VlogError VlogImpl
unfolding align_to extend_file
extend_mmap can_grow extend_size new_data_size v =
    let size = align_to new_data_size extend_size in
    if can_grow size then ok (record v { bytes = extend_file size v.bytes }) else err no_capacity

-- Write: a short value is left to the table, under the pointer of size 0.
unfoldable pub write :
    (ℕ → Bool) → ℕ → Bytes → VlogImpl → Result VlogError (VlogImpl × ValuePointer)
unfolding extend_mmap put_record
write can_grow extend_size value v =
    let new_size = v.data_size + (8 + length value) in
    if leb (length value) max_inline_size
    then ok (v, record { offset = pos 0; size = pos 0 })
    else if v.closed
    then err vlog_closed
    else (do
      grown ←
          if ltb (length v.bytes) new_size
          then extend_mmap can_grow extend_size new_size v
          else ok v
      ok (
        record grown { bytes = put_record grown.bytes v.data_size value; data_size = new_size },
        record { offset = pos v.data_size; size = of_unsigned (2 ^ 31) (length value % 2 ^ 32) },
      ))

-- readDirectLocked behind the test of the size. An int is 64 bits wide, so that sums wrap; a slice with
-- a bound that is negative or beyond the mapping panics.
unfoldable pub read_direct_locked : Bytes → ValuePointer → Result VlogError Bytes
read_direct_locked bytes vp =
    let start = to_unsigned (2 ^ 64) vp.offset in
    let end = (start + 8 + to_unsigned (2 ^ 64) vp.size) % 2 ^ 64 in
    if int_above end (length bytes) then err out_of_range else (do
      crc ← slice panic start ((start + 4) % 2 ^ 64) bytes
      size ← slice panic ((start + 4) % 2 ^ 64) ((start + 8) % 2 ^ 64) bytes
      if not (be_value size == to_unsigned (2 ^ 32) vp.size) then err size_mismatch else (do
        value ← slice panic ((start + 8) % 2 ^ 64) end bytes
        if checksum value == be_value crc then ok value else err crc_mismatch))

-- `vp.Size == 0`
unfoldable pub is_zero_sized : ValuePointer → Bool
is_zero_sized vp = elim vp.size [ pos n ↦ n == 0 | negsuc n ↦ false ]

-- Read and ReadDirect
unfoldable pub read_value : VlogImpl → ValuePointer → Result VlogError Bytes
unfolding read_direct_locked is_zero_sized
read_value v vp =
    if is_zero_sized vp
    then err zero_sized
    else if v.closed
    then err vlog_closed
    else read_direct_locked v.bytes vp

-- The loop of GC over the pointers in the order of their offsets: what is written behind the header,
-- and the translation of the pointers.
unfoldable pub collect :
    Bytes → ℕ → List ValuePointer → Result VlogError (Bytes × List (ValuePointer × ValuePointer))
unfolding read_direct_locked record_of is_zero_sized
collect bytes new_offset [] = ok ([], [])
collect bytes new_offset (vp ∷ vps) = if is_zero_sized vp then err zero_sized else (do
  value ← read_direct_locked bytes vp
  (written, translation) ← collect bytes (new_offset + (8 + length value)) vps
  ok (
    record_of value ++ written,
    (vp, record { offset = pos new_offset; size = vp.size }) ∷ translation,
  ))

-- `if vp.Size > 0` in front of the sort
unfoldable pub live_of : List ValuePointer → List ValuePointer
live_of [] = []
live_of (vp ∷ vps) = elim vp.size [
  | pos zero ↦ live_of vps
  | pos (suc n) ↦ vp ∷ live_of vps
  | negsuc n ↦ live_of vps
]

-- GC; `sort_pointers` is sort.Slice by the offset. The new file takes the place of the old one.
unfoldable pub gc :
    (List ValuePointer → List ValuePointer)
    → List ValuePointer
    → VlogImpl
    → Result VlogError (VlogImpl × List (ValuePointer × ValuePointer))
unfolding collect live_of header
gc sort_pointers live_pointers v = if v.closed then err vlog_closed else (do
  (written, translation) ← collect v.bytes 8 (sort_pointers (live_of live_pointers))
  let file = header ++ written
  ok (record v { bytes = file; data_size = length file }, translation))

-- Close
unfoldable pub close : VlogImpl → VlogImpl
close v = record { bytes = []; data_size = v.data_size; closed = true }
