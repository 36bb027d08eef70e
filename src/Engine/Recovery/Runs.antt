-- ===== src/Engine/Recovery/Runs.antt =====
-- Runs of the recovery, into a memory table that is the list of the keys it was given.
use scoria_db.Base.{ℕ, ◌≤◌, ◌≡◌, refl, ◌⊎◌, false, List, [], ◌∷◌, ◌++◌, map, All, ok, Any}
use scoria_db.Base.Bytes.{Bytes, be_value, split, read}
use scoria_db.Mvcc.{MvccKey}
use scoria_db.Txn.Batch.{WriteBatch, decode_batch, add_put, add_delete, op_put, op_delete}
use scoria_db.Engine.Wal.Samples.{
  put_a, delete_a, put_a_bytes, delete_a_front, put_a-Fits, delete_a-Fits, delete_a_encoded,
  put_a_written,
}
use scoria_db.Engine.Recovery.{MemTable, LocalOp, decode_batch_local, recover_from_wal}
use scoria_db.Engine.Recovery.Batches.{replayed, decode_batch_local-decode_batch}
use scoria_db.Engine.Recovery.Timestamps.{recovered_max}

abbrev keys_seen : MemTable (List MvccKey)
keys_seen = record { put = λ key stored s. key ∷ s; delete_with_ts = λ key s. key ∷ s }

abbrev one_shard : Bytes → ℕ
one_shard key = 0

recovered_max_example :
    (max : ℕ) × (s' : List MvccKey) × (recover_from_wal keys_seen 0 0 one_shard
        (put_a_bytes ++ delete_a_front)
        []
      ≡ ok (max, s'))
    × All (λ entry. entry.timestamp ≤ max) (put_a ∷ [])
    × ((max ≡ 0) ⊎ Any (λ entry. entry.timestamp ≡ max) (put_a ∷ []))
recovered_max_example =
    recovered_max keys_seen 0 0 one_shard (put_a ∷ []) put_a_bytes (put_a-Fits, tt) put_a_written
      delete_a 248 delete_a_front (164 ∷ []) delete_a-Fits delete_a_encoded []

abbrev two_ops_bytes : Bytes
two_ops_bytes = 0 ∷ 2 ∷ 1 ∷ 0 ∷ 1 ∷ 97 ∷ 0 ∷ 0 ∷ 0 ∷ 1 ∷ 7 ∷ 2 ∷ 0 ∷ 1 ∷ 98 ∷ 0 ∷ 0 ∷ 0 ∷ 0 ∷ []

abbrev two_ops : WriteBatch
two_ops = record {
  ops =
      record { op_type = op_put; key = 97 ∷ []; value = 7 ∷ [] }
      ∷ record { op_type = op_delete; key = 98 ∷ []; value = [] }
      ∷ [];
}

two_ops_decoded : decode_batch two_ops_bytes ≡ ok two_ops
unfolding decode_batch add_put add_delete read split be_value
two_ops_decoded = refl

decode_batch_local-decode_batch_example :
    (ops : List LocalOp) × (decode_batch_local two_ops_bytes ≡ ok ops)
    × (two_ops.ops ≡ map replayed ops)
decode_batch_local-decode_batch_example =
    decode_batch_local-decode_batch two_ops_bytes two_ops two_ops_decoded

-- An operation of another type is replayed as a put, where DecodeBatch refuses the batch.
unknown_type_replayed :
    decode_batch_local (0 ∷ 1 ∷ 7 ∷ 0 ∷ 1 ∷ 97 ∷ 0 ∷ 0 ∷ 0 ∷ 0 ∷ [])
    ≡ ok (record { is_delete = false; key = 97 ∷ []; value = [] } ∷ [])
unfolding decode_batch_local read split be_value
unknown_type_replayed = refl
