-- ===== src/Engine/ValuePointer.antt =====
-- internal/engine/value_pointer.go: the tag in front of a stored value, and the pointers to values
-- kept outside the tables. A slice that may be nil is an `Option`.
pub mod Codec
mod Runs
use scoria_db.Base.{
  ℕ, ◌+◌, ◌^◌, [], ◌∷◌, ◌++◌, Bool, false, ◌||◌, Option, none, some, length, take, drop, ◌==◌,
  if◌then◌else◌,
}
use scoria_db.Base.Bytes.{Bytes, be_bytes, be_value}
use scoria_db.Base.Int.{ℤ, to_unsigned, of_unsigned}

abbrev pub value_pointer_size : ℕ
value_pointer_size = 12

abbrev pub type_inline : ℕ
type_inline = 0x00

abbrev pub type_value_pointer : ℕ
type_value_pointer = 0x01

abbrev pub type_tombstone : ℕ
type_tombstone = 0x02

unfoldable pub is_valid_value_tag : ℕ → Bool
is_valid_value_tag b = b == type_inline || b == type_value_pointer || b == type_tombstone

unfoldable pub tagged_storage_size : Option Bytes → ℕ
tagged_storage_size none = 1
tagged_storage_size (some value) = 1 + length value

-- The bytes that EncodeTaggedValue writes to the front of `dst`; it returns how many they are.
unfoldable pub encode_tagged_value : Option Bytes → Bytes
encode_tagged_value none = type_tombstone ∷ []
encode_tagged_value (some value) = type_inline ∷ value

unfoldable pub is_stored_value_pointer : Bytes → Bool
unfolding is_valid_value_tag
is_stored_value_pointer [] = false
is_stored_value_pointer (tag ∷ payload) =
    if is_valid_value_tag tag
    then tag == type_value_pointer
    else length (tag ∷ payload) == value_pointer_size

-- Offset is an int64 and Size an int32.
pub record ValuePointer : Type 0 where
  pub offset : ℤ
  pub size : ℤ

-- The 12 bytes that EncodeValuePointer writes.
unfoldable pub encode_value_pointer : ValuePointer → Bytes
encode_value_pointer vp =
    be_bytes 8 (to_unsigned (2 ^ 64) vp.offset) ++ be_bytes 4 (to_unsigned (2 ^ 32) vp.size)

unfoldable pub decode_value_pointer : Bytes → Option ValuePointer
decode_value_pointer bytes =
    if length bytes == value_pointer_size
    then some (record {
      offset = of_unsigned (2 ^ 63) (be_value (take 8 bytes));
      size = of_unsigned (2 ^ 31) (be_value (drop 8 bytes));
    })
    else none
