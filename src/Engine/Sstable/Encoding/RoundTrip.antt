-- ===== src/Engine/Sstable/Encoding/RoundTrip.antt =====
-- A key is read back as it was written.
use scoria_db.Base.{
  ◌+◌, ◌%◌, ◌^◌, ◌<◌, ◌≡◌, refl, ap, ◌∙◌, false, ◌++◌, append_assoc, arith, ltb, length,
  length-append, ok,
}
use scoria_db.Base.Bytes.{
  Bytes, le_bytes, read-append, length-le_bytes, read_le, le_value-uint32, le_value-le_bytes,
}
use scoria_db.Mvcc.{MvccKey}
use scoria_db.Engine.Sstable.Encoding.{
  encode_mvcc_key, decode_mvcc_key, corrupted, panic, decode_parts,
}

decode_parts-parts :
    (k : MvccKey) (after : Bytes)
    → k.timestamp < 2 ^ 64
    → decode_parts (length k.key) (k.key ++ (le_bytes 8 k.timestamp ++ after)) ≡ ok k
unfolding decode_parts
decode_parts-parts k after t =
    rw
      (
        read-append (length k.key) panic k.key (le_bytes 8 k.timestamp ++ after) refl,
        decode_parts,
        read_le 8 k.timestamp panic after,
        le_value-le_bytes 8 k.timestamp t,
      )
      refl

long_enough :
    (k : MvccKey) (after : Bytes)
    → length k.key + 12 < 2 ^ 32
    → let prefix = le_bytes 4 (length k.key % 2 ^ 32) in
      ltb
        (length (prefix ++ (k.key ++ (le_bytes 8 k.timestamp ++ after))))
        ((4 + length k.key + 8) % 2 ^ 32)
      ≡ false
long_enough k after l =
    let prefix = le_bytes 4 (length k.key % 2 ^ 32) in
    let stamp = le_bytes 8 k.timestamp in
    ground (
      arith,
      l,
      length-append {0} prefix (k.key ++ (stamp ++ after)),
      length-append {0} k.key (stamp ++ after),
      length-append {0} stamp after,
      length-le_bytes 4 (length k.key % 2 ^ 32),
      length-le_bytes 8 k.timestamp,
    )

-- Decoding what encodeMVCCKey wrote gives the key back, with whatever follows it, for a key shorter
-- than 2 ^ 32 - 12 bytes and a uint64 timestamp.
pub decode_mvcc_key-encode_mvcc_key :
    (k : MvccKey) (after : Bytes)
    → length k.key + 12 < 2 ^ 32
    → k.timestamp < 2 ^ 64
    → decode_mvcc_key (encode_mvcc_key k ++ after) ≡ ok k
unfolding decode_mvcc_key encode_mvcc_key
decode_mvcc_key-encode_mvcc_key k after l t =
    let prefix = le_bytes 4 (length k.key % 2 ^ 32) in
    let stamp = le_bytes 8 k.timestamp in
    let tail = k.key ++ (stamp ++ after) in
    let whole : (prefix ++ (k.key ++ stamp)) ++ after ≡ prefix ++ tail =
      append_assoc prefix (k.key ++ stamp) after
      ∙ ap (λ xs. prefix ++ xs) (append_assoc k.key stamp after) in
    rw
      (
        whole,
        read_le 4 (length k.key % 2 ^ 32) corrupted tail,
        decode_mvcc_key,
        le_value-uint32 (length k.key) (omega (arith, l)),
        long_enough k after l,
      )
      (decode_parts-parts k after t)
