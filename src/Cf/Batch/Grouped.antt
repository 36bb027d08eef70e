-- ===== src/Cf/Batch/Grouped.antt =====
-- What the groups of a batch hold.
use scoria_db.Base.{
  ◌≡◌, inl, inr, refl, sym, ap, ◌∙◌, Bool-cases, some, List, [], ◌∷◌, ◌++◌, append-nil,
  append_assoc, if◌then◌else◌,
}
use scoria_db.Base.Bytes.{Bytes}
use scoria_db.Base.Map.{bytes_equal_iff, Map, bytes_key, bytes_equal, lookup, insert, lookup-insert}
use scoria_db.Txn.Batch.{BatchOp}
use scoria_db.Cf.Batch.{CfBatchOp, CfWriteBatch, family_of, plain_op, ops_or_nil, group_ops}

-- The operations on one family, in the order of the batch.
abbrev pub on_family : Bytes → List CfBatchOp → List BatchOp
on_family cf [] = []
on_family cf (op ∷ ops) =
    let rest = on_family cf ops in
    if bytes_equal (family_of op) cf then plain_op op ∷ rest else rest

abbrev pub group_at : Bytes → Map Bytes (List BatchOp) → List BatchOp
group_at cf groups = ops_or_nil (lookup cf groups)

joined :
    (op : CfBatchOp) (groups : Map Bytes (List BatchOp)) (rest : List BatchOp) (cf : Bytes)
    → let f = family_of op in
      ops_or_nil (
          if bytes_equal f cf
          then some (group_at f groups ++ plain_op op ∷ [])
          else lookup cf groups)
        ++ rest
      ≡ group_at cf groups ++ (if bytes_equal f cf then plain_op op ∷ rest else rest)
joined op groups rest cf = elim (Bool-cases (bytes_equal (family_of op) cf)) [
  | inl y ↦ rw y (
      append_assoc (group_at (family_of op) groups) (plain_op op ∷ []) rest
      ∙ ap (λ f. group_at f groups ++ plain_op op ∷ rest) ((bytes_equal_iff (family_of op) cf).0 y))
  | inr n ↦ rw n refl
]

group_at-group_ops :
    (ops : List CfBatchOp) (groups : Map Bytes (List BatchOp)) (cf : Bytes)
    → group_at cf (group_ops ops groups) ≡ group_at cf groups ++ on_family cf ops
unfolding group_ops
group_at-group_ops [] groups cf = sym (append-nil (group_at cf groups))
group_at-group_ops (op ∷ ops) groups cf =
    let f = family_of op in
    let grown = group_at f groups ++ plain_op op ∷ [] in
    group_at-group_ops ops (insert f grown groups) cf
    ∙ ap (λ o. ops_or_nil o ++ on_family cf ops) (lookup-insert f cf grown groups)
    ∙ joined op groups (on_family cf ops) cf

-- A group holds exactly the operations of the batch on its family, in the order of the batch, where
-- the empty name stands for the default family; and a family without operations has no group or an
-- empty one.
pub group_ops-on_family :
    (b : CfWriteBatch) (cf : Bytes)
    → ops_or_nil (lookup cf (group_ops b.ops [])) ≡ on_family cf b.ops
unfolding lookup
group_ops-on_family b cf = group_at-group_ops b.ops [] cf
