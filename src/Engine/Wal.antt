-- ===== src/Engine/Wal.antt =====
-- internal/engine/wal.go: the format of the write-ahead log and its recovery. The file is the list
-- of its bytes; what is left of it is the list of the bytes that are not yet read.
pub mod Crc
pub mod Frame
pub mod Recover
pub mod Samples
mod Runs
use scoria_db.Base.{
  ℕ, zero, suc, ◌+◌, ◌*◌, ◌%◌, ◌^◌, Bool, true, false, Option, none, some, [], ◌∷◌, ◌++◌, ltb, ◌==◌,
  if◌then◌else◌, length, take, drop, Result, ok, err, ◌>>=◌,
}
use scoria_db.Base.Bytes.{Bytes, be_bytes, be_value, read}
use scoria_db.Engine.Wal.Crc.{checksum}

-- `type OpType byte`
abbrev pub op_put : ℕ
op_put = 1

abbrev pub op_delete : ℕ
op_delete = 2

abbrev pub op_batch : ℕ
op_batch = 3

pub record WalEntry : Type 0 where
  pub op : ℕ
  pub key : Bytes
  pub value : Bytes
  pub timestamp : ℕ
  pub is_large : Bool

abbrev pub max_wal_entry_size : ℕ
max_wal_entry_size = 1024 * 1024

abbrev pub wal_flag_is_large : ℕ
wal_flag_is_large = 0x01

-- io.EOF: nothing was left; io.ErrUnexpectedEOF: some bytes were left, but too few.
pub data ReadError : Type 0 where
  eof unexpected_eof crc_mismatch : ReadError

abbrev pub flags_of : Bool → ℕ
flags_of true = wal_flag_is_large
flags_of false = 0

-- All of a record but its checksum.
unfoldable pub encode_body : WalEntry → Bytes
encode_body entry =
    (entry.op ∷ flags_of entry.is_large ∷ [])
    ++ (be_bytes 8 entry.timestamp
        ++ (be_bytes 2 (length entry.key % 2 ^ 16)
            ++ (be_bytes 4 (length entry.value % 2 ^ 32) ++ (entry.key ++ entry.value))))

unfoldable pub total_size : WalEntry → ℕ
total_size entry = 1 + 1 + 8 + 2 + 4 + length entry.key + length entry.value + 4

-- The bytes that encodeWalEntryTo writes to the front of a buffer of `capacity` bytes.
unfoldable pub encode_wal_entry_to : WalEntry → ℕ → Option Bytes
unfolding encode_body total_size
encode_wal_entry_to entry capacity =
    if ltb capacity (total_size entry)
    then none
    else some (encode_body entry ++ be_bytes 4 (checksum (encode_body entry)))

-- io.ReadFull
unfoldable pub read_full : ℕ → Bytes → Result ReadError (Bytes × Bytes)
read_full zero r = ok ([], r)
read_full (suc n) [] = err eof
read_full (suc n) (b ∷ r) = read (suc n) unexpected_eof (b ∷ r)

unfoldable pub check_crc : Bytes → Bytes → Bytes → Bytes → Result ReadError WalEntry
check_crc header key value crc_buf =
    if checksum (header ++ (key ++ value)) == be_value crc_buf
    then ok (record {
      op = be_value (take 1 header);
      key = key;
      value = value;
      timestamp = be_value (take 8 (drop 2 header));
      is_large = be_value (take 1 (drop 1 header)) % 2 == 1;
    })
    else err crc_mismatch

unfoldable pub decode_wal_entry : Bytes → Result ReadError (WalEntry × Bytes)
unfolding check_crc
decode_wal_entry r = do
  (header, r) ← read_full 16 r
  (key, r) ← read_full (be_value (take 2 (drop 10 header))) r
  (value, r) ← read_full (be_value (take 4 (drop 12 header))) r
  (crc_buf, r) ← read_full 4 r
  entry ← check_crc header key value crc_buf
  ok (entry, r)

-- The loop of Recover over what is left of the file. The callback changes the state `S` or fails;
-- `stuck` is no Go value: the fuel ran out.
pub data RecoverError {ℓ} (E : Type ℓ) : Type ℓ where
  callback_error : E → RecoverError E
  stuck : RecoverError E

module _ {S E : Type 0} (cb : WalEntry → S → Result E S) where
  unfoldable pub recover_loop : ℕ → Bytes → S → Result (RecoverError E) S
  recover_loop zero r s = err stuck
  recover_loop (suc fuel) r s = elim (decode_wal_entry r) [
    | err e ↦ ok s
    | ok (entry, rest) ↦ elim (cb entry s) [
      | ok s' ↦ recover_loop fuel rest s'
      | err e ↦ err (callback_error e)
    ]
  ]

  -- Each round reads a record of some bytes, so one round more than the file has bytes is enough.
  unfoldable pub recover : Bytes → S → Result (RecoverError E) S
  unfolding recover_loop
  recover file s = recover_loop (suc (length file)) file s

-- Write without group commit: the record is appended to the file and synced.
unfoldable pub write : WalEntry → Bytes → Option Bytes
unfolding encode_wal_entry_to
write entry file = elim (encode_wal_entry_to entry max_wal_entry_size) [
  | none ↦ none
  | some record_bytes ↦ some (file ++ record_bytes)
]
