-- ===== src/Engine/Wal/Samples.antt =====
-- Two records of a log, and their bytes.
use scoria_db.Base.{◌≡◌, refl, false, some, [], ◌∷◌, ◌++◌, arith}
use scoria_db.Base.Bytes.{Bytes, be_bytes}
use scoria_db.Engine.Wal.Crc.{checksum}
use scoria_db.Engine.Wal.{
  WalEntry, encode_wal_entry_to, max_wal_entry_size, write, op_put, op_delete,
}
use scoria_db.Engine.Wal.Frame.{Fits}
use scoria_db.Engine.Wal.Recover.{write_all}

abbrev pub put_a : WalEntry
put_a = record { op = op_put; key = 97 ∷ []; value = 1 ∷ 2 ∷ []; timestamp = 7; is_large = false }

abbrev pub delete_a : WalEntry
delete_a = record { op = op_delete; key = 97 ∷ []; value = []; timestamp = 8; is_large = false }

abbrev pub put_a_bytes : Bytes
put_a_bytes =
    1 ∷ 0 ∷ 0 ∷ 0 ∷ 0 ∷ 0 ∷ 0 ∷ 0 ∷ 0 ∷ 7 ∷ 0 ∷ 1 ∷ 0 ∷ 0 ∷ 0 ∷ 2 ∷ 97 ∷ 1 ∷ 2 ∷ 55 ∷ 149 ∷ 107 ∷ 33
    ∷ []

abbrev pub delete_a_front : Bytes
delete_a_front = 2 ∷ 0 ∷ 0 ∷ 0 ∷ 0 ∷ 0 ∷ 0 ∷ 0 ∷ 0 ∷ 8 ∷ 0 ∷ 1 ∷ 0 ∷ 0 ∷ 0 ∷ 0 ∷ 97 ∷ 63 ∷ 223 ∷ []

pub put_a-Fits : Fits put_a
put_a-Fits = omega arith

pub delete_a-Fits : Fits delete_a
delete_a-Fits = omega arith

pub put_a_encoded : encode_wal_entry_to put_a max_wal_entry_size ≡ some put_a_bytes
unfolding encode_wal_entry_to be_bytes checksum
put_a_encoded = refl

pub delete_a_encoded :
    encode_wal_entry_to delete_a max_wal_entry_size ≡ some (delete_a_front ++ (248 ∷ 164 ∷ []))
unfolding encode_wal_entry_to be_bytes checksum
delete_a_encoded = refl

pub put_a_written : write_all (put_a ∷ []) [] ≡ some put_a_bytes
unfolding write_all write be_bytes checksum
put_a_written = refl
