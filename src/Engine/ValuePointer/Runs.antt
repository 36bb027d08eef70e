-- ===== src/Engine/ValuePointer/Runs.antt =====
-- Pointers and tags at concrete values.
use scoria_db.Base.{◌≡◌, some, arith}
use scoria_db.Base.Int.{pos, negsuc}
use scoria_db.Engine.ValuePointer.{ValuePointer, encode_value_pointer, decode_value_pointer}
use scoria_db.Engine.ValuePointer.Codec.{decode_value_pointer-encode_value_pointer}

abbrev negative_offset : ValuePointer
negative_offset = record { offset = negsuc 4; size = pos 70 }

decode_value_pointer-encode_value_pointer_example :
    decode_value_pointer (encode_value_pointer negative_offset) ≡ some negative_offset
decode_value_pointer-encode_value_pointer_example =
    decode_value_pointer-encode_value_pointer negative_offset (omega arith)
