-- ===== src/Txn/Batch.antt =====
-- internal/txn/batch.go: write batches and their serialised form. A Go slice that is only measured
-- and copied is a list, whether it is nil or empty.
pub mod RoundTrip
pub mod Decoded
mod Runs
use scoria_db.Base.{
  ℕ, zero, suc, ◌%◌, ◌^◌, List, [], ◌∷◌, ◌++◌, length, ◌==◌, if◌then◌else◌, Result, ok, err, ◌>>=◌,
}
use scoria_db.Base.Bytes.{Bytes, be_bytes, be_value, read}

-- OpType is an int: `const (OpPut OpType = iota; OpDelete)`.
abbrev pub op_put : ℕ
op_put = 0

abbrev pub op_delete : ℕ
op_delete = 1

pub record BatchOp : Type 0 where
  pub op_type : ℕ
  pub key : Bytes
  pub value : Bytes

pub record WriteBatch : Type 0 where
  pub ops : List BatchOp

abbrev pub new_write_batch : WriteBatch
new_write_batch = record { ops = [] }

unfoldable pub add_put : Bytes → Bytes → WriteBatch → WriteBatch
add_put key value b = record {
  ops = b.ops ++ record { op_type = op_put; key = key; value = value } ∷ [];
}

unfoldable pub add_delete : Bytes → WriteBatch → WriteBatch
add_delete key b = record {
  ops = b.ops ++ record { op_type = op_delete; key = key; value = [] } ∷ [];
}

unfoldable pub size : WriteBatch → ℕ
size b = length b.ops

unfoldable pub clear : WriteBatch → WriteBatch
clear b = record { ops = [] }

pub data Error : Type 0 where
  unknown_operation_type : ℕ → Error
  batch_data_too_short : Error
  missing_op_type missing_key_length key_exceeds_buffer : Error
  missing_value_length value_exceeds_buffer : Error

-- The byte for an operation type.
unfoldable pub op_tag : ℕ → Result Error ℕ
op_tag t =
    if t == op_put then ok 1 else if t == op_delete then ok 2 else err (unknown_operation_type t)

-- The loop of EncodeBatch. It fills one buffer from the front; the lengths are converted to uint16
-- and uint32.
unfoldable pub encode_ops : List BatchOp → Result Error Bytes
unfolding op_tag
encode_ops [] = ok []
encode_ops (op ∷ ops) = do
  tag ← op_tag op.op_type
  rest ← encode_ops ops
  ok (
      (tag ∷ [])
      ++ (be_bytes 2 (length op.key % 2 ^ 16)
          ++ (op.key ++ (be_bytes 4 (length op.value % 2 ^ 32) ++ (op.value ++ rest)))))

unfoldable pub encode_batch : WriteBatch → Result Error Bytes
unfolding encode_ops
encode_batch b = do body ← encode_ops b.ops; ok (be_bytes 2 (length b.ops % 2 ^ 16) ++ body)

-- `switch opType`
unfoldable pub add_decoded : Bytes → Bytes → Bytes → WriteBatch → Result Error WriteBatch
unfolding add_put add_delete
add_decoded tag key value b =
    let t = be_value tag in
    if t == 1
    then ok (add_put key value b)
    else if t == 2
    then ok (add_delete key b)
    else err (unknown_operation_type t)

-- The loop of DecodeBatch, over the operations left and the input from `pos` on.
unfoldable pub decode_ops : ℕ → Bytes → WriteBatch → Result Error WriteBatch
unfolding add_decoded
decode_ops zero rest b = ok b
decode_ops (suc n) rest b = do
  (tag, rest) ← read 1 missing_op_type rest
  (key_len, rest) ← read 2 missing_key_length rest
  (key, rest) ← read (be_value key_len) key_exceeds_buffer rest
  (val_len, rest) ← read 4 missing_value_length rest
  (value, rest) ← read (be_value val_len) value_exceeds_buffer rest
  b' ← add_decoded tag key value b
  decode_ops n rest b'

unfoldable pub decode_batch : Bytes → Result Error WriteBatch
unfolding decode_ops
decode_batch input = do
  (num_ops, rest) ← read 2 batch_data_too_short input
  decode_ops (be_value num_ops) rest new_write_batch
