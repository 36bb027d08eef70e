-- ===== src/Engine/ValuePointer/Codec.antt =====
-- Value pointers and tags are read back as they were written.
use scoria_db.Base.{
  ◌^◌, ◌≡◌, refl, ◌≢◌, ◌⊎◌, inl, inr, false, Option, none, some, arith, ◌==◌, ==_iff, Bool-cases,
  length, take, drop, All, length-append,
}
use scoria_db.Base.Bytes.{be_value, length-drop, be_value-lt, length-take, take-IsByte, drop-IsByte}
use scoria_db.Base.Bytes.{
  be_bytes, length-be_bytes, be_value-be_bytes, take-append_of_length, drop-append_of_length, Bytes,
  IsByte,
}
use scoria_db.Base.Int.{
  to_unsigned, IsSigned, of_unsigned-to_unsigned, to_unsigned-lt, of_unsigned, of_unsigned-IsSigned,
}
use scoria_db.Engine.ValuePointer.{
  ValuePointer, value_pointer_size, encode_value_pointer, decode_value_pointer, encode_tagged_value,
  tagged_storage_size, is_stored_value_pointer,
}

-- An int64 offset and an int32 size.
pub record IsPointer (vp : ValuePointer) : Type 0 where
  pub offset_range : IsSigned (2 ^ 63) vp.offset
  pub size_range : IsSigned (2 ^ 31) vp.size

pub length-encode_value_pointer :
    (vp : ValuePointer) → length (encode_value_pointer vp) ≡ value_pointer_size
unfolding encode_value_pointer
length-encode_value_pointer vp = omega (
  arith,
  length-append {0} (be_bytes 8 (to_unsigned (2 ^ 64) vp.offset)),
  length-be_bytes 8 (to_unsigned (2 ^ 64) vp.offset),
  length-be_bytes 4 (to_unsigned (2 ^ 32) vp.size),
)

offset_bytes :
    (vp : ValuePointer)
    → take 8 (encode_value_pointer vp) ≡ be_bytes 8 (to_unsigned (2 ^ 64) vp.offset)
unfolding encode_value_pointer
offset_bytes vp = take-append_of_length 8 _ _ (length-be_bytes 8 _)

size_bytes :
    (vp : ValuePointer)
    → drop 8 (encode_value_pointer vp) ≡ be_bytes 4 (to_unsigned (2 ^ 32) vp.size)
unfolding encode_value_pointer
size_bytes vp =
    drop-append_of_length 8 (be_bytes 8 (to_unsigned (2 ^ 64) vp.offset)) _ (length-be_bytes 8 _)

-- Every pointer of an int64 offset and an int32 size, negative ones included, is read back.
pub decode_value_pointer-encode_value_pointer :
    (vp : ValuePointer) → IsPointer vp → decode_value_pointer (encode_value_pointer vp) ≡ some vp
unfolding decode_value_pointer
decode_value_pointer-encode_value_pointer vp h = ground (
  arith,
  length-encode_value_pointer vp,
  offset_bytes vp,
  size_bytes vp,
  be_value-be_bytes 8 (to_unsigned (2 ^ 64) vp.offset)
      (to_unsigned-lt (2 ^ 63) vp.offset h.offset_range),
  be_value-be_bytes 4 (to_unsigned (2 ^ 32) vp.size) (to_unsigned-lt (2 ^ 31) vp.size h.size_range),
  of_unsigned-to_unsigned (2 ^ 63) vp.offset h.offset_range,
  of_unsigned-to_unsigned (2 ^ 31) vp.size h.size_range,
)

-- Bytes of any other length are no pointer, and 12 bytes always are one, of an int64 and an int32.
decode_value_pointer_cases :
    (bytes : Bytes)
    → All IsByte bytes
    → ((length bytes ≡ value_pointer_size)
        × ((vp : ValuePointer) × (decode_value_pointer bytes ≡ some vp) × IsPointer vp))
      ⊎ ((length bytes ≢ value_pointer_size) × (decode_value_pointer bytes ≡ none))
unfolding decode_value_pointer
decode_value_pointer_cases bytes h = elim (Bool-cases (length bytes == value_pointer_size)) [
  | inl e ↦
      let len = (==_iff _ _).0 e in
      let size : length (drop 8 bytes) ≡ 4 = omega (arith, length-drop 8 bytes, len) in
      inl (
        len,
        (
          record {
            offset = of_unsigned (2 ^ 63) (be_value (take 8 bytes));
            size = of_unsigned (2 ^ 31) (be_value (drop 8 bytes));
          },
          rw e,
          record {
            offset_range = of_unsigned-IsSigned (2 ^ 63) _ (
                be_value-lt 8 (take 8 bytes) (length-take 8 bytes (omega (arith, len)))
                  (take-IsByte 8 bytes h));
            size_range =
                of_unsigned-IsSigned (2 ^ 31) _
                  (be_value-lt 4 (drop 8 bytes) size (drop-IsByte 8 bytes h));
          },
        ),
      )
  | inr e ↦ inr (ground arith, rw e)
]

-- EncodeTaggedValue fills exactly the storage that TaggedStorageSize asks for, and what it writes
-- is never taken for a pointer, whatever the value and its length.
encode_tagged_value_inline :
    (value : Option Bytes)
    → (length (encode_tagged_value value) ≡ tagged_storage_size value)
      × (is_stored_value_pointer (encode_tagged_value value) ≡ false)
unfolding encode_tagged_value tagged_storage_size is_stored_value_pointer
encode_tagged_value_inline none = (omega arith, refl)
encode_tagged_value_inline (some value) = (omega arith, refl)
