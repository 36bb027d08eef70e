-- ===== src/Txn/Batch/RoundTrip.antt =====
-- Decoding what EncodeBatch wrote.
use scoria_db.Base.{
  ℕ, suc, ◌≡◌, refl, sym, append-nil, ◌∙◌, ap, ◌+◌, ◌<◌, ◌%◌, ◌^◌, ◌⊎◌, List, [], ◌∷◌, ◌++◌, length,
  All, arith, ok, ◌>>=◌, append_assoc,
}
use scoria_db.Base.Bytes.{
  Bytes, be_bytes, read-append, read_be, be_value-uint16, be_value-uint32, be_value-one,
}
use scoria_db.Txn.Batch.{
  op_put, op_delete, BatchOp, WriteBatch, new_write_batch, op_tag, encode_ops, encode_batch,
  decode_ops, decode_batch, add_decoded, missing_op_type, missing_key_length, key_exceeds_buffer,
  missing_value_length, value_exceeds_buffer, batch_data_too_short,
}

-- An operation as AddPut and AddDelete make it, with lengths that the format can hold.
pub record Fits (op : BatchOp) : Type 0 where
  pub known : (op.op_type ≡ op_put) ⊎ ((op.op_type ≡ op_delete) × (op.value ≡ []))
  pub key_fits : length op.key < 2 ^ 16
  pub value_fits : length op.value < 2 ^ 32

pub record IsEncodable (b : WriteBatch) : Type 0 where
  pub count_fits : length b.ops < 2 ^ 16
  pub all_fit : All Fits b.ops

abbrev tag_of : BatchOp → ℕ
tag_of op = op.op_type + 1

abbrev frame : ℕ → Bytes → Bytes → Bytes → Bytes
frame tag key value rest =
    (tag ∷ [])
    ++ (be_bytes 2 (length key % 2 ^ 16)
        ++ (key ++ (be_bytes 4 (length value % 2 ^ 32) ++ (value ++ rest))))

abbrev encoding : List BatchOp → Bytes
encoding [] = []
encoding (op ∷ ops) = frame (tag_of op) op.key op.value (encoding ops)

tag-op_tag : (op : BatchOp) → Fits op → op_tag op.op_type ≡ ok (tag_of op)
unfolding op_tag
tag-op_tag op f = ground arith

encode_ops-encoding : (ops : List BatchOp) → All Fits ops → encode_ops ops ≡ ok (encoding ops)
unfolding encode_ops
encode_ops-encoding [] h = refl
encode_ops-encoding (op ∷ ops) (f, h) = ground (arith, tag-op_tag op f, encode_ops-encoding ops h)

-- One round of the loop on an encoded operation.
decode_ops-frame :
    (n tag : ℕ) (key value rest : Bytes) (b : WriteBatch)
    → length key < 2 ^ 16
    → length value < 2 ^ 32
    → decode_ops (suc n) (frame tag key value rest) b
      ≡ (add_decoded (tag ∷ []) key value b >>= λ b'. decode_ops n rest b')
unfolding decode_ops
decode_ops-frame n tag key value rest b hk hv =
    rw (read-append 1 missing_op_type (tag ∷ []) _ refl) (
      rw (read_be 2 (length key % 2 ^ 16) missing_key_length _) (
        rw (be_value-uint16 (length key) hk, read-append (length key) key_exceeds_buffer key _ refl)
          (rw (read_be 4 (length value % 2 ^ 32) missing_value_length _) (
            rw
              (
                be_value-uint32 (length value) hv,
                read-append (length value) value_exceeds_buffer value rest refl,
              )
              refl))))

append : WriteBatch → List BatchOp → WriteBatch
append b ops = record { ops = b.ops ++ ops }

add_decoded-Fits :
    (op : BatchOp) (b : WriteBatch)
    → Fits op
    → add_decoded (tag_of op ∷ []) op.key op.value b ≡ ok (append b (op ∷ []))
unfolding add_decoded append
add_decoded-Fits op b f = ground (arith, be_value-one (tag_of op))

append-append :
    (b : WriteBatch) (xs ys : List BatchOp) → append (append b xs) ys ≡ append b (xs ++ ys)
unfolding append
append-append b xs ys = ap (λ (l : List BatchOp). record { ops = l }) (append_assoc b.ops xs ys)

decode_ops-encoding :
    (ops : List BatchOp) (b : WriteBatch)
    → All Fits ops
    → decode_ops (length ops) (encoding ops) b ≡ ok (append b ops)
decode_ops-encoding [] b h =
    unfold decode_ops append in
    ap (λ (l : List BatchOp). ok (record { ops = l })) (sym (append-nil b.ops))
decode_ops-encoding (op ∷ ops) b (f, h) =
    decode_ops-frame (length ops) (tag_of op) op.key op.value (encoding ops) b f.key_fits
      f.value_fits
    ∙ rw (add_decoded-Fits op b f)
        (decode_ops-encoding ops (append b (op ∷ [])) h ∙ ap ok (append-append b (op ∷ []) ops))

-- DecodeBatch gives back the batch that EncodeBatch wrote, for every batch of known operations
-- whose count and lengths fit the format's fields.
pub decode_batch-encode_batch :
    (b : WriteBatch) → IsEncodable b → (encode_batch b >>= λ bytes. decode_batch bytes) ≡ ok b
unfolding encode_batch decode_batch append
decode_batch-encode_batch b h = rw (encode_ops-encoding b.ops h.all_fit) (
    rw (read_be 2 (length b.ops % 2 ^ 16) batch_data_too_short (encoding b.ops)) (
      rw (be_value-uint16 (length b.ops) h.count_fits)
        (decode_ops-encoding b.ops new_write_batch h.all_fit)))
