-- ===== src/Engine/Wal/Runs.antt =====
-- The log at concrete records, and the theorems on it at concrete inputs.
use scoria_db.Base.{ℕ, ◌≡◌, ◌≢◌, List, [], ◌∷◌, ◌++◌, Result, ok, err}
use scoria_db.Engine.Wal.{WalEntry, ReadError, stuck, decode_wal_entry, max_wal_entry_size, recover}
use scoria_db.Engine.Wal.Samples.{
  put_a, delete_a, put_a_bytes, delete_a_front, put_a-Fits, delete_a-Fits, put_a_encoded,
  delete_a_encoded, put_a_written,
}
use scoria_db.Engine.Wal.Frame.{decode_wal_entry-encoded, decode_wal_entry_cut}
use scoria_db.Engine.Wal.Recover.{replay, recover-ne-stuck, recover-write_all}

-- A callback that keeps the timestamps it has seen, and never fails.
abbrev collect : WalEntry → List ℕ → Result (Unit {0}) (List ℕ)
collect entry seen = ok (entry.timestamp ∷ seen)

decode_wal_entry-encoded_example : decode_wal_entry (put_a_bytes ++ (9 ∷ [])) ≡ ok (put_a, 9 ∷ [])
decode_wal_entry-encoded_example =
    decode_wal_entry-encoded put_a put_a-Fits max_wal_entry_size put_a_bytes (9 ∷ []) put_a_encoded

decode_wal_entry_cut_example : (e : ReadError) × (decode_wal_entry delete_a_front ≡ err e)
decode_wal_entry_cut_example =
    decode_wal_entry_cut delete_a max_wal_entry_size 248 delete_a_front (164 ∷ []) delete_a-Fits
      delete_a_encoded

recover-ne-stuck_example : recover collect put_a_bytes [] ≢ err stuck
recover-ne-stuck_example = recover-ne-stuck collect put_a_bytes []

recover-write_all_example :
    recover collect (put_a_bytes ++ delete_a_front) [] ≡ replay collect (put_a ∷ []) []
recover-write_all_example =
    recover-write_all collect (put_a ∷ []) put_a_bytes (put_a-Fits, tt) put_a_written delete_a 248
      delete_a_front (164 ∷ []) delete_a-Fits delete_a_encoded []
