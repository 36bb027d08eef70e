-- ===== src/Engine/Sstable/Entry.antt =====
-- internal/engine/sstable/writer.go and encoding.go: the entries of a data block as bytes. A value
-- that may be nil is an `Option`.
pub mod RoundTrip
pub mod Sequence
use scoria_db.Base.{
  ℕ, ◌%◌, ◌^◌, Bool, ◌||◌, Option, none, some, [], ◌∷◌, ◌++◌, ◌==◌, if◌then◌else◌, length, Result,
  ok, ◌>>=◌,
}
use scoria_db.Base.Bytes.{Bytes, le_bytes, le_value, read}
use scoria_db.Mvcc.{MvccKey}
use scoria_db.Engine.Sstable.Encoding.{encode_mvcc_key, EncodingError, corrupted}

abbrev pub tag_inline : ℕ
tag_inline = 0x00

abbrev pub tag_value_ptr : ℕ
tag_value_ptr = 0x01

abbrev pub tag_tombstone : ℕ
tag_tombstone = 0x02

unfoldable pub is_valid_value_tag : ℕ → Bool
is_valid_value_tag b = b == tag_inline || b == tag_value_ptr || b == tag_tombstone

pub record RawEntry : Type 0 where
  pub key : MvccKey
  pub value : Option Bytes
  pub tagged : Bool

-- The bytes behind the key in encodeEntry: the value under its tag.
unfoldable pub inline_value : Option Bytes → Bytes
inline_value none = tag_tombstone ∷ []
inline_value (some value) = tag_inline ∷ value

-- The bytes behind the key in encodeEntryTagged: the value as it is.
unfoldable pub verbatim_value : Option Bytes → Bytes
verbatim_value none = tag_tombstone ∷ []
verbatim_value (some value) = value

-- Both lengths stand in front of the key and of the stored value.
unfoldable pub entry_bytes : Bytes → Bytes → Bytes
entry_bytes key stored =
    le_bytes 4 (length key % 2 ^ 32) ++ (le_bytes 4 (length stored % 2 ^ 32) ++ (key ++ stored))

unfoldable pub encode_entry : Bytes → Option Bytes → Bytes
unfolding entry_bytes inline_value
encode_entry key value = entry_bytes key (inline_value value)

unfoldable pub encode_entry_tagged : Bytes → Option Bytes → Bytes
unfolding entry_bytes verbatim_value
encode_entry_tagged key value = entry_bytes key (verbatim_value value)

-- `entryBytes` in the loop of Finish
unfoldable pub encode_raw : RawEntry → Bytes
unfolding encode_entry encode_entry_tagged
encode_raw entry =
    let key_bytes = encode_mvcc_key entry.key in
    if entry.tagged
    then encode_entry_tagged key_bytes entry.value
    else encode_entry key_bytes entry.value

-- The front of a round of the loops of Lookup and Next: the bytes of a key, those of a value and
-- what is left of the block, an error where the block is too short for them.
unfoldable pub read_entry : Bytes → Result EncodingError (Bytes × Bytes × Bytes)
read_entry rest = do
  (key_len, rest) ← read 4 corrupted rest
  (val_len, rest) ← read 4 corrupted rest
  (key, rest) ← read (le_value key_len) corrupted rest
  (val, rest) ← read (le_value val_len) corrupted rest
  ok (key, val, rest)
