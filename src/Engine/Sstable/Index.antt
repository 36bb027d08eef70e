-- ===== src/Engine/Sstable/Index.antt =====
-- internal/engine/sstable/writer.go and reader.go: the index of a table, one entry for each block.
pub mod RoundTrip
use scoria_db.Base.{
  ℕ, zero, suc, ◌+◌, ◌%◌, ◌^◌, List, [], ◌∷◌, ◌++◌, ltb, if◌then◌else◌, length, Result, ok, err,
  ◌>>=◌,
}
use scoria_db.Base.Bytes.{Bytes, le_bytes, le_value, read}
use scoria_db.Base.Slices.{slice}
use scoria_db.Engine.Sstable.Block.{TableError, out_of_range, truncated, panic}

pub record IndexEntry : Type 0 where
  pub key : Bytes
  pub offset : ℕ

-- What writeFooter writes for one block.
unfoldable pub encode_index_entry : IndexEntry → Bytes
encode_index_entry entry =
    le_bytes 4 (length entry.key % 2 ^ 32) ++ (entry.key ++ le_bytes 8 entry.offset)

unfoldable pub encode_index : List IndexEntry → Bytes
unfolding encode_index_entry
encode_index [] = []
encode_index (entry ∷ entries) = encode_index_entry entry ++ encode_index entries

-- One round of the loop of parseIndex.
unfoldable pub parse_index_entry : Bytes → Result TableError (IndexEntry × Bytes)
parse_index_entry rest = do
  (key_len, rest) ← read 4 truncated rest
  (key, rest) ← read (le_value key_len) truncated rest
  (offset, rest) ← read 8 truncated rest
  ok (record { key = key; offset = le_value offset }, rest)

-- The loop over what is left of the index. `panic` at the end of the fuel is never reached.
unfoldable pub parse_index_entries : ℕ → Bytes → Result TableError (List IndexEntry)
unfolding parse_index_entry
parse_index_entries fuel [] = ok []
parse_index_entries zero (b ∷ rest) = err panic
parse_index_entries (suc fuel) (b ∷ rest) = do
  (entry, left) ← parse_index_entry (b ∷ rest)
  entries ← parse_index_entries fuel left
  ok (entry ∷ entries)

-- Each round reads a byte at least.
unfoldable pub parse_index : Bytes → ℕ → ℕ → Result TableError (List IndexEntry)
unfolding parse_index_entries
parse_index bytes offset size =
    let end = (offset + size) % 2 ^ 64 in
    if ltb (length bytes) end
    then err out_of_range
    else (do index ← slice panic offset end bytes; parse_index_entries (length index) index)
