-- ===== src/Engine/Sstable/Encoding.antt =====
-- internal/engine/sstable/encoding.go: MVCC keys as bytes.
pub mod RoundTrip
mod Runs
use scoria_db.Base.{ℕ, ◌+◌, ◌%◌, ◌^◌, ◌++◌, ltb, if◌then◌else◌, length, Result, ok, err, ◌>>=◌}
use scoria_db.Base.Bytes.{Bytes, le_bytes, le_value, read}
use scoria_db.Mvcc.{MvccKey}

pub data EncodingError : Type 0 where
  -- ErrCorrupted, and a run-time panic of a slice expression
  corrupted panic : EncodingError

unfoldable pub encode_mvcc_key : MvccKey → Bytes
encode_mvcc_key k = le_bytes 4 (length k.key % 2 ^ 32) ++ (k.key ++ le_bytes 8 k.timestamp)

-- The slices behind the length test
unfoldable pub decode_parts : ℕ → Bytes → Result EncodingError MvccKey
decode_parts len rest = do
  (key, rest) ← read len panic rest
  (timestamp, rest) ← read 8 panic rest
  ok (record { key = key; timestamp = le_value timestamp })

-- The length test adds on uint32, so it may wrap for a length near 2 ^ 32; a slice then panics.
unfoldable pub decode_mvcc_key : Bytes → Result EncodingError MvccKey
unfolding decode_parts
decode_mvcc_key input = do
  (len, rest) ← read 4 corrupted input
  if ltb (length input) ((4 + le_value len + 8) % 2 ^ 32)
      then err corrupted
      else decode_parts (le_value len) rest
