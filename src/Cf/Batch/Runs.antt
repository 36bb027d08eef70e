-- ===== src/Cf/Batch/Runs.antt =====
-- A batch over two families.
use scoria_db.Base.{◌≡◌, refl, [], ◌∷◌}
use scoria_db.Base.Map.{bytes_key, bytes_equal, lookup}
use scoria_db.Txn.Batch.{op_put, op_delete}
use scoria_db.Cf.Registry.{default_cf, meta_cf}
use scoria_db.Cf.Batch.{
  CfWriteBatch, new_cf_write_batch, add_put_to, add_delete_to, group_ops, ops_or_nil,
}
use scoria_db.Cf.Batch.Grouped.{group_ops-on_family}

-- The default family is named once by its name and once by the empty one.
abbrev three_ops : CfWriteBatch
three_ops = record {
  ops =
      record { cf = []; op_type = op_put; key = 1 ∷ []; value = 7 ∷ [] }
      ∷ record { cf = meta_cf; op_type = op_put; key = 2 ∷ []; value = 8 ∷ [] }
      ∷ record { cf = default_cf; op_type = op_delete; key = 3 ∷ []; value = [] }
      ∷ [];
}

three_ops_built :
    add_delete_to default_cf
      (3 ∷ [])
      (add_put_to meta_cf (2 ∷ []) (8 ∷ []) (add_put_to [] (1 ∷ []) (7 ∷ []) new_cf_write_batch))
    ≡ three_ops
unfolding add_put_to add_delete_to
three_ops_built = refl

group_ops-on_family_example :
    ops_or_nil (lookup default_cf (group_ops three_ops.ops []))
    ≡ record { op_type = op_put; key = 1 ∷ []; value = 7 ∷ [] }
      ∷ record { op_type = op_delete; key = 3 ∷ []; value = [] }
      ∷ []
unfolding bytes_equal
group_ops-on_family_example = group_ops-on_family three_ops default_cf
