-- ===== src/Engine/Lsm/Values.antt =====
-- decodeStoredValue: from the tagged form of a value to what the user put.
use scoria_db.Base.{
  ◌||◌, Option, none, some, [], ◌∷◌, ltb, ◌==◌, if◌then◌else◌, length, Result, ok, err,
}
use scoria_db.Base.Bytes.{Bytes}
use scoria_db.Base.Int.{is_negative, is_nonpositive, pos_part}
use scoria_db.Engine.ValuePointer.{
  value_pointer_size, type_tombstone, type_value_pointer, is_valid_value_tag, decode_value_pointer,
}
use scoria_db.Engine.Recovery.{ends_beyond}
use scoria_db.Engine.Lsm.{ValueStores, EngineError, value_read_failed}

-- A read that fails is an error.
abbrev read_or_fail : Option Bytes → Result EngineError (Option Bytes)
read_or_fail none = err value_read_failed
read_or_fail (some value) = ok (some value)

module _ {V : Type 0} (stores : ValueStores V) (values : V) where
  unfoldable pub read_pointer : Bytes → Result EngineError (Option Bytes)
  unfolding decode_value_pointer ends_beyond
  read_pointer payload = elim (decode_value_pointer payload) [
    | none ↦ ok (some payload)
    | some vp ↦
        if is_negative vp.offset || is_nonpositive vp.size
        then ok (some payload)
        else if ltb (pos_part vp.offset) (stores.mmap_size values)
        then read_or_fail (stores.read_value (pos_part vp.offset) (pos_part vp.size) values)
        else if ends_beyond (pos_part vp.offset) (pos_part vp.size) (stores.vlog_size values)
        then ok (some payload)
        else read_or_fail (stores.read_direct vp values)
  ]

  -- Whether the value comes from an SSTable only decides on a copy.
  unfoldable pub decode_stored_value : Option Bytes → Result EngineError (Option Bytes)
  unfolding read_pointer is_valid_value_tag
  decode_stored_value none = ok none
  decode_stored_value (some []) = ok (some [])
  decode_stored_value (some (tag ∷ payload)) =
      if is_valid_value_tag tag
      then (if tag == type_tombstone
          then ok none
          else if tag == type_value_pointer
          then read_pointer payload
          else ok (some payload))
      else if length (tag ∷ payload) == value_pointer_size
      then read_pointer (tag ∷ payload)
      else ok (some (tag ∷ payload))
