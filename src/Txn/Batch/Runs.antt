-- ===== src/Txn/Batch/Runs.antt =====
-- Batches at concrete operations, and the theorems on them at concrete inputs.
use scoria_db.Base.{◌≡◌, refl, [], ◌∷◌, arith, ok, err, ◌>>=◌}
use scoria_db.Base.Bytes.{Bytes, be_bytes, be_value, split, read}
use scoria_db.Txn.Batch.{
  WriteBatch, new_write_batch, add_put, add_delete, encode_batch, decode_batch,
  unknown_operation_type,
}
use scoria_db.Txn.Batch.RoundTrip.{IsEncodable, decode_batch-encode_batch}

abbrev two_ops : WriteBatch
unfolding add_put add_delete
two_ops = add_delete (98 ∷ []) (add_put (97 ∷ []) (1 ∷ 2 ∷ []) new_write_batch)

two_ops-IsEncodable : IsEncodable two_ops
unfolding add_put add_delete
two_ops-IsEncodable = ground arith

abbrev two_ops_bytes : Bytes
two_ops_bytes = 0 ∷ 2 ∷ 1 ∷ 0 ∷ 1 ∷ 97 ∷ 0 ∷ 0 ∷ 0 ∷ 2 ∷ 1 ∷ 2 ∷ 2 ∷ 0 ∷ 1 ∷ 98 ∷ 0 ∷ 0 ∷ 0 ∷ 0 ∷ []

two_ops_encoded : encode_batch two_ops ≡ ok two_ops_bytes
unfolding encode_batch add_put add_delete be_bytes
two_ops_encoded = refl

two_ops_decoded : decode_batch two_ops_bytes ≡ ok two_ops
unfolding decode_batch add_put add_delete read split be_value
two_ops_decoded = refl

unknown_type :
    decode_batch (0 ∷ 1 ∷ 7 ∷ 0 ∷ 0 ∷ 0 ∷ 0 ∷ 0 ∷ 0 ∷ []) ≡ err (unknown_operation_type 7)
unfolding decode_batch read split be_value
unknown_type = refl

decode_batch-encode_batch_example :
    (encode_batch two_ops >>= λ bytes. decode_batch bytes) ≡ ok two_ops
decode_batch-encode_batch_example = decode_batch-encode_batch two_ops two_ops-IsEncodable
