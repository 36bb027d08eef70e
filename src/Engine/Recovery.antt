-- ===== src/Engine/Recovery.antt =====
-- internal/engine/recovery.go: the replay of the log into the memory table. The memory table is an
-- interface of two methods; the size of the value log and the routing of keys are arguments.
pub mod Batches
pub mod Timestamps
mod Runs
use scoria_db.Base.{
  ℕ, zero, suc, ◌+◌, ◌^◌, Bool, false, ◌||◌, Option, none, some, List, [], ◌∷◌, ltb, ◌==◌,
  if◌then◌else◌, length, Result, ok, err, ◌>>=◌,
}
use scoria_db.Base.Bytes.{Bytes, be_value, read}
use scoria_db.Base.Int.{is_negative, is_nonpositive, pos_part}
use scoria_db.Mvcc.{MvccKey, new_mvcc_key}
use scoria_db.Engine.ValuePointer.{
  ValuePointer, value_pointer_size, type_inline, type_value_pointer, type_tombstone,
  decode_value_pointer,
}
use scoria_db.Engine.Wal.{WalEntry, RecoverError, op_put, op_delete, op_batch, recover}

pub record MemTable (S : Type 0) : Type 0 where
  pub put : MvccKey → Bytes → S → S
  pub delete_with_ts : MvccKey → S → S

pub data BatchError : Type 0 where
  batch_data_too_short malformed_batch_data : BatchError

pub record LocalOp : Type 0 where
  pub is_delete : Bool
  pub key : Bytes
  pub value : Bytes

-- The loop of decodeBatchLocal, over the operations left and the data from `pos` on.
unfoldable pub decode_local_ops : ℕ → Bytes → Result BatchError (List LocalOp)
decode_local_ops zero rest = ok []
decode_local_ops (suc n) rest = do
  (op_type, rest) ← read 1 malformed_batch_data rest
  (key_len, rest) ← read 2 malformed_batch_data rest
  (key, rest) ← read (be_value key_len) malformed_batch_data rest
  (val_len, rest) ← read 4 malformed_batch_data rest
  (value, rest) ← read (be_value val_len) malformed_batch_data rest
  ops ← decode_local_ops n rest
  ok (record { is_delete = be_value op_type == 2; key = key; value = value } ∷ ops)

unfoldable pub decode_batch_local : Bytes → Result BatchError (List LocalOp)
unfolding decode_local_ops
decode_batch_local input = do
  (num_ops, rest) ← read 2 batch_data_too_short input
  decode_local_ops (be_value num_ops) rest

-- Every value of 12 bytes is taken for a pointer. A nil value becomes a tombstone.
unfoldable pub tag_stored_value : Option Bytes → Bytes
tag_stored_value none = type_tombstone ∷ []
tag_stored_value (some value) =
    (if length value == value_pointer_size then type_value_pointer else type_inline) ∷ value

-- The flag of an entry, if there is one, or the length of the value.
unfoldable pub is_large_for_recovery : Bool → Bytes → Bool
is_large_for_recovery flag value = flag || length value == value_pointer_size

-- `vp.Offset+int64(vp.Size)+8 > vlog.Size()` on int64, for an offset and a size that are not
-- negative: a sum of 2 ^ 63 or more wraps to a negative number.
unfoldable pub ends_beyond : ℕ → ℕ → ℕ → Bool
ends_beyond offset size vlog_size =
    let end = offset + size + 8 in if ltb end (2 ^ 63) then ltb vlog_size end else false

unfoldable pub is_out_of_bounds : ℕ → ValuePointer → Bool
unfolding ends_beyond
is_out_of_bounds vlog_size vp =
    is_negative vp.offset
    || (is_nonpositive vp.size || ends_beyond (pos_part vp.offset) (pos_part vp.size) vlog_size)

module _ {S : Type 0} (mem_table : MemTable S) (vlog_size : ℕ) (shard_id : ℕ)
    (shard_index : Bytes → ℕ) where
  -- `case OpPut`
  unfoldable pub recover_put : WalEntry → S → S
  unfolding tag_stored_value is_large_for_recovery is_out_of_bounds
  recover_put entry s =
      let stored =
        mem_table.put (new_mvcc_key entry.key entry.timestamp) (tag_stored_value (some entry.value))
          s in
      if is_large_for_recovery entry.is_large entry.value
      then elim (decode_value_pointer entry.value) [
        | none ↦ stored
        | some vp ↦ if is_out_of_bounds vlog_size vp then s else stored
      ]
      else stored

  -- One round of the loop over the operations of a batch.
  unfoldable pub recover_op : ℕ → LocalOp → S → S
  unfolding tag_stored_value is_large_for_recovery is_out_of_bounds
  recover_op ts op s =
      let key = new_mvcc_key op.key ts in
      let stored = mem_table.put key (tag_stored_value (some op.value)) s in
      let dropped = mem_table.put key (tag_stored_value none) s in
      if shard_index op.key == shard_id
      then if op.is_delete
        then mem_table.delete_with_ts key s
        else if is_large_for_recovery false op.value
        then elim (decode_value_pointer op.value) [
          | none ↦ dropped
          | some vp ↦ if is_out_of_bounds vlog_size vp then dropped else stored
        ]
        else stored
      else s

  unfoldable pub recover_ops : ℕ → List LocalOp → S → S
  recover_ops ts [] s = s
  recover_ops ts (op ∷ ops) s = recover_ops ts ops (recover_op ts op s)

  -- The switch in the callback of recoverFromWAL. A batch that cannot be decoded, and an entry of
  -- another kind, change nothing.
  unfoldable pub recover_state : WalEntry → S → S
  unfolding recover_put recover_ops recover_op decode_batch_local
  recover_state entry s =
      if entry.op == op_put
      then recover_put entry s
      else if entry.op == op_delete
      then mem_table.delete_with_ts (new_mvcc_key entry.key entry.timestamp) s
      else if entry.op == op_batch
      then elim (decode_batch_local entry.value) [
        | err e ↦ s
        | ok ops ↦ recover_ops entry.timestamp ops s
      ]
      else s

  -- The callback, on the greatest timestamp so far and the memory table. It never fails.
  unfoldable pub recover_entry : WalEntry → ℕ × S → Result (Unit {0}) (ℕ × S)
  unfolding recover_state
  recover_entry entry (max_ts, s) =
      ok (if ltb max_ts entry.timestamp then entry.timestamp else max_ts, recover_state entry s)

  unfoldable pub recover_from_wal : Bytes → S → Result (RecoverError (Unit {0})) (ℕ × S)
  unfolding recover_entry
  recover_from_wal file s = recover recover_entry file (0, s)
