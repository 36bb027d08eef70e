-- ===== src/Txn/Transaction.antt =====
-- internal/txn/transaction.go, and ApplyBatchWithTS of internal/txn/batch.go: transactions over an
-- engine. A method returns the transaction and the engine's state with its result.
pub mod ReadYourWrites
pub mod Lifecycle
pub mod Committed
mod Runs
use scoria_db.Base.{
  ℕ, ◌+◌, ◌%◌, ◌^◌, Bool, true, false, Option, none, some, List, [], ◌∷◌, leb, ◌==◌, if◌then◌else◌,
  length, Result, ok, err,
}
use scoria_db.Base.Bytes.{Bytes}
use scoria_db.Base.Map.{Map, bytes_key, lookup, insert}
use scoria_db.Txn.Batch.{
  op_put, op_delete, WriteBatch, new_write_batch, add_put, add_delete, size, encode_batch,
}
use scoria_db.Txn.Batch as Batch
use scoria_db.Txn.Interface.{Engine}

-- The errors of a transaction; `engine_error` and `batch_error` are wrapped ones.
pub data TxnError (E : Type 0) : Type 0 where
  conflict : TxnError E
  transaction_closed : TxnError E
  batch_error : Batch.Error → TxnError E
  engine_error : E → TxnError E

pub record PendingOp : Type 0 where
  pub op_type : ℕ
  pub key : Bytes
  pub value : Option Bytes

-- A nil map and an empty one are both read as empty.
pub record Transaction : Type 0 where
  pub start_ts : ℕ
  pub writes : Map Bytes PendingOp
  pub closed : Bool

-- A nil slice has length 0.
abbrev pub slice : Option Bytes → Bytes
slice none = []
slice (some bytes) = bytes

-- One round of the loop in Commit that fills the batch. Another type of operation adds nothing.
unfoldable pub add_pending : PendingOp → WriteBatch → WriteBatch
add_pending op b =
    if op.op_type == op_put
    then add_put op.key (slice op.value) b
    else if op.op_type == op_delete
    then add_delete op.key b
    else b

unfoldable pub add_all : List PendingOp → WriteBatch → WriteBatch
add_all [] b = b
add_all (op ∷ ops) b = add_all ops (add_pending op b)

-- Put and Delete say whether they were accepted; a closed transaction refuses with
-- ErrTransactionClosed.
unfoldable pub put : Bytes → Option Bytes → Transaction → Bool × Transaction
put key value tx = if tx.closed then (false, tx) else (
  true,
  record tx {
    writes = insert key (record { op_type = op_put; key = key; value = value }) tx.writes;
  },
)

unfoldable pub delete : Bytes → Transaction → Bool × Transaction
delete key tx = if tx.closed then (false, tx) else (
  true,
  record tx {
    writes = insert key (record { op_type = op_delete; key = key; value = none }) tx.writes;
  },
)

module _ {S E : Type 0} (engine : Engine S E) where
  -- Begin
  unfoldable pub begin_txn : ℕ → S → Transaction × S
  begin_txn start_ts s = (
    record { start_ts = start_ts; writes = []; closed = false },
    engine.register_snapshot start_ts s,
  )

  unfoldable pub begin_with_next_ts : S → Transaction × S
  unfolding begin_txn
  begin_with_next_ts s = let (start_ts, s) = engine.next_timestamp s in begin_txn start_ts s

  unfoldable pub wrap_read : Result E (Option Bytes) × S → Result (TxnError E) (Option Bytes) × S
  wrap_read (ok value, s) = (ok value, s)
  wrap_read (err e, s) = (err (engine_error e), s)

  unfoldable pub get : Bytes → Transaction → S → Result (TxnError E) (Option Bytes) × S
  unfolding wrap_read
  get key tx s = if tx.closed then (err transaction_closed, s) else elim (lookup key tx.writes) [
    | some op ↦ (ok (if op.op_type == op_delete then none else op.value), s)
    | none ↦ wrap_read (engine.get_with_ts key tx.start_ts s)
  ]

  -- The loop of Commit that checks each key, and stops at an error or a conflict.
  unfoldable pub check_all : List PendingOp → ℕ → S → Option (TxnError E) × S
  check_all [] start_ts s = (none, s)
  check_all (op ∷ ops) start_ts s =
      let (verdict, s) = engine.check_conflict op.key start_ts s in
      let rest = check_all ops start_ts s in
      elim verdict [
        | err e ↦ (some (engine_error e), s)
        | ok true ↦ (some conflict, s)
        | ok false ↦ rest
      ]

  unfoldable pub wrap_write : Option E × S → Option (TxnError E) × S
  wrap_write (none, s) = (none, s)
  wrap_write (some e, s) = (some (engine_error e), s)

  -- ApplyBatchWithTS
  unfoldable pub apply_batch_with_ts : WriteBatch → ℕ → S → Option (TxnError E) × S
  unfolding wrap_write
  apply_batch_with_ts b commit_ts s = if size b == 0 then (none, s) else elim (encode_batch b) [
    | err e ↦ (some (batch_error e), s)
    | ok encoded ↦ wrap_write (engine.write_atomic_batch encoded commit_ts s)
  ]

  -- `if commitTS <= tx.startTS`, on a uint64
  unfoldable pub later_than : ℕ → ℕ → ℕ
  later_than start_ts commit_ts =
      if leb commit_ts start_ts then (start_ts + 1) % 2 ^ 64 else commit_ts

  -- Commit behind the conflict checks
  unfoldable pub write_all : List PendingOp → ℕ → S → Option (TxnError E) × S
  unfolding add_all add_pending apply_batch_with_ts later_than
  write_all batched start_ts s =
      let (ts, s) = engine.next_timestamp s in
      apply_batch_with_ts (add_all batched new_write_batch) (later_than start_ts ts) s

  -- Commit behind its first test and before its deferred calls. Go visits a map in any order, and
  -- not twice in the same: `checked` and `batched` are the orders of the two loops.
  unfoldable pub commit_writes :
      List PendingOp → List PendingOp → Transaction → S → Option (TxnError E) × S
  unfolding check_all write_all
  commit_writes checked batched tx s =
      if length tx.writes == 0
      then (none, s)
      else let (failure, s) = check_all checked tx.start_ts s in
        elim failure [ some e ↦ (some e, s) | none ↦ write_all batched tx.start_ts s ]

  unfoldable pub commit :
      List PendingOp → List PendingOp → Transaction → S → Option (TxnError E) × Transaction × S
  unfolding commit_writes
  commit checked batched tx s =
      if tx.closed
      then (some transaction_closed, tx, s)
      else let (failure, s) = commit_writes checked batched tx s in
        (failure, record tx { closed = true }, engine.unregister_snapshot tx.start_ts s)

  unfoldable pub rollback : Transaction → S → Option (TxnError E) × Transaction × S
  rollback tx s = if tx.closed then (some transaction_closed, tx, s) else (
    none,
    record tx { closed = true; writes = [] },
    engine.unregister_snapshot tx.start_ts s,
  )
