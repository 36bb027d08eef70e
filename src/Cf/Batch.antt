-- ===== src/Cf/Batch.antt =====
-- internal/cf/batch.go: a batch over several column families, applied to the registry's engines. An
-- engine is a pointer in Go, so what happens to it is written back under its name.
pub mod Grouped
mod Runs
use scoria_db.Base.{
  ℕ, Option, none, some, List, [], ◌∷◌, ◌++◌, ◌==◌, if◌then◌else◌, length, Result, ok, err,
}
use scoria_db.Base.Bytes.{Bytes}
use scoria_db.Base.Map.{Map, bytes_key, bytes_equal, lookup, insert}
use scoria_db.Txn.Batch.{
  BatchOp, WriteBatch, op_put, op_delete, new_write_batch, add_put, add_delete,
}
use scoria_db.Txn.Interface.{Engine}
use scoria_db.Txn.Transaction.{TxnError, apply_batch_with_ts}
use scoria_db.Cf.Registry.{Registry, default_cf}

pub record CfBatchOp : Type 0 where
  pub cf : Bytes
  pub op_type : ℕ
  pub key : Bytes
  pub value : Bytes

pub record CfWriteBatch : Type 0 where
  pub ops : List CfBatchOp

abbrev pub new_cf_write_batch : CfWriteBatch
new_cf_write_batch = record { ops = [] }

unfoldable pub add_put_to : Bytes → Bytes → Bytes → CfWriteBatch → CfWriteBatch
add_put_to cf key value b = record {
  ops = b.ops ++ record { cf = cf; op_type = op_put; key = key; value = value } ∷ [];
}

unfoldable pub add_delete_to : Bytes → Bytes → CfWriteBatch → CfWriteBatch
add_delete_to cf key b = record {
  ops = b.ops ++ record { cf = cf; op_type = op_delete; key = key; value = [] } ∷ [];
}

unfoldable pub cf_size : CfWriteBatch → ℕ
cf_size b = length b.ops

unfoldable pub cf_clear : CfWriteBatch → CfWriteBatch
cf_clear b = record { ops = [] }

-- The empty name is that of the default family.
abbrev pub family_of : CfBatchOp → Bytes
family_of op = if bytes_equal op.cf [] then default_cf else op.cf

abbrev pub plain_op : CfBatchOp → BatchOp
plain_op op = record { op_type = op.op_type; key = op.key; value = op.value }

abbrev pub ops_or_nil : Option (List BatchOp) → List BatchOp
ops_or_nil none = []
ops_or_nil (some ops) = ops

-- The loop that groups the operations by family.
unfoldable pub group_ops : List CfBatchOp → Map Bytes (List BatchOp) → Map Bytes (List BatchOp)
group_ops [] groups = groups
group_ops (op ∷ ops) groups =
    group_ops ops
      (insert (family_of op) (ops_or_nil (lookup (family_of op) groups) ++ plain_op op ∷ []) groups)

-- The plain batch of one family.
unfoldable pub fill_batch : List BatchOp → WriteBatch → WriteBatch
fill_batch [] b = b
fill_batch (op ∷ ops) b = fill_batch ops (
    if op.op_type == op_put
    then add_put op.key op.value b
    else if op.op_type == op_delete
    then add_delete op.key b
    else b)

pub data CfBatchError (X : Type 0) : Type 0 where
  no_family : Bytes → CfBatchError X
  no_operations : CfBatchError X
  not_applied : Bytes → TxnError X → CfBatchError X

module _ {S X : Type 0} (engine : Engine S X) where
  -- The loop that applies the groups; what was applied before a failure stays applied.
  unfoldable pub apply_groups :
      List (Bytes × List BatchOp) → ℕ → Registry S → Result (CfBatchError X) ℕ × Registry S
  unfolding fill_batch
  apply_groups [] commit_ts reg = (ok commit_ts, reg)
  apply_groups ((cf, ops) ∷ groups) commit_ts reg = elim (lookup cf reg.cfs) [
    | none ↦ (err (no_family cf), reg)
    | some s ↦
        let (failure, s') =
          apply_batch_with_ts engine (fill_batch ops new_write_batch) commit_ts s in
        let reg' : Registry S = record { cfs = insert cf s' reg.cfs } in
        let rest = apply_groups groups commit_ts reg' in
        elim failure [ some e ↦ (err (not_applied cf e), reg') | none ↦ rest ]
  ]

  -- ApplyCFBatch. Go visits a map in any order: `first` is the family whose engine gives the
  -- timestamp, and `visit` the order in which the groups are applied.
  unfoldable pub apply_cf_batch :
      (Map Bytes (List BatchOp) → Option Bytes)
      → (Map Bytes (List BatchOp) → List (Bytes × List BatchOp))
      → CfWriteBatch
      → Registry S
      → Result (CfBatchError X) ℕ × Registry S
  unfolding group_ops apply_groups cf_size
  apply_cf_batch first visit b reg =
      if cf_size b == 0
      then (ok 0, reg)
      else let groups = group_ops b.ops [] in
        elim (first groups) [
          | none ↦ (err no_operations, reg)
          | some cf ↦ elim (lookup cf reg.cfs) [
            | none ↦ (err (no_family cf), reg)
            | some s ↦
                let (commit_ts, s') = engine.next_timestamp s in
                apply_groups (visit groups) commit_ts (record { cfs = insert cf s' reg.cfs })
          ]
        ]
