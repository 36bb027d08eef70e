-- ===== src/Engine/Recovery/Batches.antt =====
-- The engine's own decoder of batches against the one of the transactions.
use scoria_db.Base.{
  ℕ, zero, suc, ◌≡◌, refl, ap, ◌∙◌, List, [], ◌∷◌, ◌++◌, map, append-nil, append_assoc, arith, ◌==◌,
  if◌then◌else◌, ok, ok_of_bind,
}
use scoria_db.Base.Bytes.{Bytes, be_value, read}
use scoria_db.Txn.Batch.{
  BatchOp, WriteBatch, op_put, op_delete, new_write_batch, add_put, add_delete, add_decoded,
  decode_ops, decode_batch,
}
use scoria_db.Txn.Batch as Batch
use scoria_db.Engine.Recovery.{
  LocalOp, malformed_batch_data, batch_data_too_short, decode_local_ops, decode_batch_local,
}

-- The operation that is replayed for a decoded one; a delete has no value.
abbrev pub replayed : LocalOp → BatchOp
replayed op =
    if op.is_delete
    then record { op_type = op_delete; key = op.key; value = [] }
    else record { op_type = op_put; key = op.key; value = op.value }

-- A read that succeeds does so whatever the error would have been.
read_same :
    {E F : Type 0} (n : ℕ) (e : E) (f : F) (l : Bytes) (p : Bytes × Bytes)
    → read n e l ≡ ok p
    → read n f l ≡ ok p
unfolding read
read_same n e f l p h = ground (arith, h)

add_decoded-replayed :
    (tag key value : Bytes) (b out : WriteBatch)
    → add_decoded tag key value b ≡ ok out
    → out.ops
      ≡ b.ops ++ replayed (record { is_delete = be_value tag == 2; key = key; value = value }) ∷ []
unfolding add_decoded add_put add_delete
add_decoded-replayed tag key value b out h = ground (arith, h)

local_step :
    (n : ℕ) (rest r1 r2 r3 r4 r5 tag kl key vl value : Bytes) (ops : List LocalOp)
    → read 1 malformed_batch_data rest ≡ ok (tag, r1)
    → read 2 malformed_batch_data r1 ≡ ok (kl, r2)
    → read (be_value kl) malformed_batch_data r2 ≡ ok (key, r3)
    → read 4 malformed_batch_data r3 ≡ ok (vl, r4)
    → read (be_value vl) malformed_batch_data r4 ≡ ok (value, r5)
    → decode_local_ops n r5 ≡ ok ops
    → decode_local_ops (suc n) rest
      ≡ ok (record { is_delete = be_value tag == 2; key = key; value = value } ∷ ops)
unfolding decode_local_ops
local_step n rest r1 r2 r3 r4 r5 tag kl key vl value ops a1 a2 a3 a4 a5 a6 =
    rw (a1, decode_local_ops, a2, a3, a4, a5, a6) refl

local_start :
    (input num rest : Bytes) (ops : List LocalOp)
    → read 2 batch_data_too_short input ≡ ok (num, rest)
    → decode_local_ops (be_value num) rest ≡ ok ops
    → decode_batch_local input ≡ ok ops
unfolding decode_batch_local
local_start input num rest ops a h = rw (a, decode_batch_local, h) refl

decode_ops-local :
    (n : ℕ) (rest : Bytes) (b out : WriteBatch)
    → decode_ops n rest b ≡ ok out
    → (ops : List LocalOp) × (decode_local_ops n rest ≡ ok ops)
      × (out.ops ≡ b.ops ++ map replayed ops)
unfolding decode_ops decode_local_ops
decode_ops-local zero rest b out h = ([], refl, ground (arith, h, append-nil b.ops))
decode_ops-local (suc n) rest b out h =
    let ((tag, r1), h1, k1) = ok_of_bind (read 1 Batch.missing_op_type rest) _ h in
    let ((kl, r2), h2, k2) = ok_of_bind (read 2 Batch.missing_key_length r1) _ k1 in
    let ((key, r3), h3, k3) = ok_of_bind (read (be_value kl) Batch.key_exceeds_buffer r2) _ k2 in
    let ((vl, r4), h4, k4) = ok_of_bind (read 4 Batch.missing_value_length r3) _ k3 in
    let ((value, r5), h5, k5) =
      ok_of_bind (read (be_value vl) Batch.value_exceeds_buffer r4) _ k4 in
    let (b', h6, k6) = ok_of_bind (add_decoded tag key value b) _ k5 in
    let (ops, local, same) = decode_ops-local n r5 b' out k6 in
    let op : LocalOp = record { is_delete = be_value tag == 2; key = key; value = value } in
    (
      op ∷ ops,
      local_step n rest r1 r2 r3 r4 r5 tag kl key vl value ops
          (read_same 1 Batch.missing_op_type malformed_batch_data rest (tag, r1) h1)
          (read_same 2 Batch.missing_key_length malformed_batch_data r1 (kl, r2) h2)
          (read_same (be_value kl) Batch.key_exceeds_buffer malformed_batch_data r2 (key, r3) h3)
          (read_same 4 Batch.missing_value_length malformed_batch_data r3 (vl, r4) h4)
          (read_same (be_value vl) Batch.value_exceeds_buffer malformed_batch_data r4 (value, r5)
            h5)
          local,
      same
          ∙ ap (λ xs. xs ++ map replayed ops) (add_decoded-replayed tag key value b b' h6)
          ∙ append_assoc b.ops (replayed op ∷ []) (map replayed ops),
    )

-- Whatever DecodeBatch accepts, decodeBatchLocal accepts too, and it yields the same operations in
-- the same order, where a delete replays without a value.
pub decode_batch_local-decode_batch :
    (input : Bytes) (b : WriteBatch)
    → decode_batch input ≡ ok b
    → (ops : List LocalOp) × (decode_batch_local input ≡ ok ops) × (b.ops ≡ map replayed ops)
unfolding decode_batch decode_batch_local
decode_batch_local-decode_batch input b h =
    let ((num, rest), h1, k1) = ok_of_bind (read 2 Batch.batch_data_too_short input) _ h in
    let (ops, local, same) = decode_ops-local (be_value num) rest new_write_batch b k1 in
    (
      ops,
      local_start input num rest ops
          (read_same 2 Batch.batch_data_too_short batch_data_too_short input (num, rest) h1) local,
      same,
    )
