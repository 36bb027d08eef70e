-- ===== src/Txn/Batch/Decoded.antt =====
-- What DecodeBatch returns on any input, and which batches the builders make.
use scoria_db.Base.{
  ℕ, zero, suc, ◌≡◌, ◌+◌, ◌<◌, ◌^◌, length, length-append, All, All-append, arith, ok, ok_of_bind,
}
use scoria_db.Base.Bytes.{Bytes, IsByte, be_value, read, read-IsByte, be_value-lt}
use scoria_db.Txn.Batch.{
  WriteBatch, new_write_batch, add_put, add_delete, add_decoded, decode_ops, decode_batch,
  missing_op_type, missing_key_length, key_exceeds_buffer, missing_value_length,
  value_exceeds_buffer, batch_data_too_short,
}
use scoria_db.Txn.Batch.RoundTrip.{Fits, IsEncodable}

-- AddPut and AddDelete append one operation that fits.
pub add_put-Fits :
    (key value : Bytes) (b : WriteBatch)
    → length key < 2 ^ 16
    → length value < 2 ^ 32
    → All Fits b.ops
    → All Fits (add_put key value b).ops × (length (add_put key value b).ops ≡ length b.ops + 1)
unfolding add_put
add_put-Fits key value b hk hv h =
    (All-append Fits b.ops _ h (ground arith, tt), omega (arith, length-append {0} b.ops))

pub add_delete-Fits :
    (key : Bytes) (b : WriteBatch)
    → length key < 2 ^ 16
    → All Fits b.ops
    → All Fits (add_delete key b).ops × (length (add_delete key b).ops ≡ length b.ops + 1)
unfolding add_delete
add_delete-Fits key b hk h =
    (All-append Fits b.ops _ h (ground arith, tt), omega (arith, length-append {0} b.ops))

add_decoded-Fits :
    (tag key value : Bytes) (b b' : WriteBatch)
    → length key < 2 ^ 16
    → length value < 2 ^ 32
    → All Fits b.ops
    → add_decoded tag key value b ≡ ok b'
    → All Fits b'.ops × (length b'.ops ≡ length b.ops + 1)
unfolding add_decoded
add_decoded-Fits tag key value b b' hk hv h e =
    ground (arith, add_put-Fits key value b hk hv h, add_delete-Fits key b hk h)

decode_ops-Fits :
    (n : ℕ) (rest : Bytes) (b b' : WriteBatch)
    → All IsByte rest
    → All Fits b.ops
    → decode_ops n rest b ≡ ok b'
    → All Fits b'.ops × (length b'.ops ≡ length b.ops + n)
unfolding decode_ops
decode_ops-Fits zero rest b b' bytes h e = ground arith
decode_ops-Fits (suc n) rest b b' bytes h e =
    let (p1, e1, k1) = ok_of_bind (read 1 missing_op_type rest) _ e in
    let b1 = read-IsByte 1 missing_op_type rest e1 bytes in
    let (p2, e2, k2) = ok_of_bind (read 2 missing_key_length p1.1) _ k1 in
    let b2 = read-IsByte 2 missing_key_length p1.1 e2 b1.2 in
    let (p3, e3, k3) = ok_of_bind (read (be_value p2.0) key_exceeds_buffer p2.1) _ k2 in
    let b3 = read-IsByte (be_value p2.0) key_exceeds_buffer p2.1 e3 b2.2 in
    let (p4, e4, k4) = ok_of_bind (read 4 missing_value_length p3.1) _ k3 in
    let b4 = read-IsByte 4 missing_value_length p3.1 e4 b3.2 in
    let (p5, e5, k5) = ok_of_bind (read (be_value p4.0) value_exceeds_buffer p4.1) _ k4 in
    let b5 = read-IsByte (be_value p4.0) value_exceeds_buffer p4.1 e5 b4.2 in
    let (b'', e6, k6) = ok_of_bind (add_decoded p1.0 p3.0 p5.0 b) _ k5 in
    let added =
      add_decoded-Fits p1.0 p3.0 p5.0 b b'' (omega (arith, b3.0, be_value-lt 2 p2.0 b2.0 b2.1))
        (omega (arith, b5.0, be_value-lt 4 p4.0 b4.0 b4.1)) h e6 in
    let rest' = decode_ops-Fits n p5.1 b'' b' b5.2 added.0 k6 in
    (rest'.0, omega (arith, added.1, rest'.1))

-- A batch that DecodeBatch returns, on any bytes, holds only known operations with lengths that
-- the format can hold, as many as the count in front says, and a delete has no value. So it can
-- be encoded again.
decode_batch-IsEncodable :
    (input : Bytes) (b : WriteBatch) → All IsByte input → decode_batch input ≡ ok b → IsEncodable b
unfolding decode_batch
decode_batch-IsEncodable input b bytes e =
    let (p, e1, k) = ok_of_bind (read 2 batch_data_too_short input) _ e in
    let b1 = read-IsByte 2 batch_data_too_short input e1 bytes in
    let d = decode_ops-Fits (be_value p.0) p.1 new_write_batch b b1.2 tt k in
    record { count_fits = omega (arith, d.1, be_value-lt 2 p.0 b1.0 b1.1); all_fit = d.0 }
