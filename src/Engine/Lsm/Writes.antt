-- ===== src/Engine/Lsm/Writes.antt =====
-- The writes of the engine. `none` is a panic: of the arena, or of an index in an empty list of shards.
use scoria_db.Base.{
  ℕ, suc, ◌%◌, ◌^◌, Bool, false, ◌||◌, Option, none, some, List, [], ◌∷◌, leb, ◌==◌, if◌then◌else◌,
  length, get_elem?, set, ok, err,
}
use scoria_db.Base.Bytes.{Bytes}
use scoria_db.Base.Int.{of_unsigned}
use scoria_db.Mvcc.{MvccKey, new_mvcc_key}
use scoria_db.Engine.ValuePointer.{
  ValuePointer, type_inline, type_value_pointer, encode_value_pointer,
}
use scoria_db.Engine.Wal.{WalEntry, op_put, op_delete, op_batch}
use scoria_db.Engine.Wal.{write}
use scoria_db.Engine.Vlog.{max_inline_size}
use scoria_db.Engine.Recovery.{LocalOp, decode_batch_local, tag_stored_value}
use scoria_db.Engine.Cache.{update_last_commit_cache}
use scoria_db.Engine.Memtable.SkipList.{put, delete_with_ts}
use scoria_db.Engine.Lsm.{
  ValueStores, Shard, LsmEngine, EngineError, engine_closed, wal_failed, value_write_failed,
  batch_malformed, shard_index,
}

abbrev pub Written : Type 0 → Type 0
Written V = Option (Option EngineError × LsmEngine V)

abbrev pub no_error : {V : Type 0} → LsmEngine V → Written V
no_error e = some (none, e)

abbrev pub log_entry : ℕ → Bytes → Bytes → ℕ → WalEntry
log_entry op key value ts = record {
  op = op;
  key = key;
  value = value;
  timestamp = ts;
  is_large = false;
}

-- Conversions of the offset to int64 and of the length to int32
abbrev pub pointer_to : ℕ → Bytes → ValuePointer
pointer_to offset value = record {
  offset = of_unsigned (2 ^ 63) (offset % 2 ^ 64);
  size = of_unsigned (2 ^ 31) (length value % 2 ^ 32);
}

-- The insertion into the memory table of a shard, behind the write to its log.
unfoldable pub put_in_shard :
    {V : Type 0} → MvccKey → Bytes → ℕ → ℕ → Shard → LsmEngine V → Option (LsmEngine V)
unfolding put
put_in_shard key stored height index shard e = elim (put key (some stored) height shard.mem_table) [
  | none ↦ none
  | some (added, table) ↦
      some (record e { shards = set e.shards index (record shard { mem_table = table }) })
]

unfoldable pub delete_in_shard :
    {V : Type 0} → MvccKey → ℕ → ℕ → Shard → LsmEngine V → Option (LsmEngine V)
unfolding delete_with_ts
delete_in_shard key height index shard e = elim (delete_with_ts key height shard.mem_table) [
  | none ↦ none
  | some (marked, table) ↦
      some (record e { shards = set e.shards index (record shard { mem_table = table }) })
]

-- The last steps of a write: the cache learns the timestamp.
abbrev pub committed : {V : Type 0} → Bytes → ℕ → Option (LsmEngine V) → Written V
committed key ts none = none
committed key ts (some e) = no_error (record e { cache = update_last_commit_cache key ts e.cache })

module _ {V : Type 0} (stores : ValueStores V) where
  -- The branch of a large value, which is not logged.
  unfoldable pub put_large : Bytes → Bytes → ℕ → ℕ → LsmEngine V → Written V
  unfolding shard_index put_in_shard new_mvcc_key encode_value_pointer
  put_large key value ts height e = elim (stores.write_entry op_put key value ts e.values) [
    | none ↦ some (some value_write_failed, e)
    | some (offset, values) ↦
        let e' = record e { values = values } in
        elim (get_elem? e.shards (shard_index key e)) [
          | none ↦ none
          | some shard ↦ committed key ts (
              put_in_shard (new_mvcc_key key ts)
                (type_value_pointer ∷ encode_value_pointer (pointer_to offset value)) height
                (shard_index key e) shard e')
        ]
  ]

  unfoldable pub put_inline : Bytes → Bytes → ℕ → ℕ → LsmEngine V → Written V
  unfolding shard_index put_in_shard new_mvcc_key write
  put_inline key value ts height e = elim (get_elem? e.shards (shard_index key e)) [
    | none ↦ none
    | some shard ↦ elim (write (log_entry op_put key value ts) shard.wal) [
      | none ↦ some (some wal_failed, e)
      | some wal ↦ committed key ts (
          put_in_shard (new_mvcc_key key ts) (type_inline ∷ value) height (shard_index key e)
            (record shard { wal = wal }) e)
    ]
  ]

  unfoldable pub put_with_ts : Bytes → Bytes → ℕ → ℕ → LsmEngine V → Written V
  unfolding put_large put_inline
  put_with_ts key value ts height e =
      if e.closed
      then some (some engine_closed, e)
      else if leb (length value) max_inline_size
      then put_inline key value ts height e
      else put_large key value ts height e

unfoldable pub delete_key : {V : Type 0} → Bytes → ℕ → ℕ → LsmEngine V → Written V
unfolding shard_index delete_in_shard new_mvcc_key write
delete_key key ts height e =
    if e.closed
    then some (some engine_closed, e)
    else elim (get_elem? e.shards (shard_index key e)) [
      | none ↦ none
      | some shard ↦ elim (write (log_entry op_delete key [] ts) shard.wal) [
        | none ↦ some (some wal_failed, e)
        | some wal ↦ committed key ts (
            delete_in_shard (new_mvcc_key key ts) height (shard_index key e)
              (record shard { wal = wal }) e)
      ]
    ]

-- Whether an operation of the batch belongs to the shard.
unfoldable pub is_affected : ℕ → (Bytes → ℕ) → List LocalOp → Bool
is_affected index route [] = false
is_affected index route (op ∷ ops) = route op.key == index || is_affected index route ops

-- The batch in the log of each shard that it affects. All of them get the same record, so whether it is
-- too large does not depend on the order of the map.
unfoldable pub log_batch :
    WalEntry → ℕ → (Bytes → ℕ) → List LocalOp → List Shard → Option (List Shard)
unfolding is_affected write
log_batch entry index route ops [] = some []
log_batch entry index route ops (shard ∷ shards) =
    elim (log_batch entry (suc index) route ops shards) [
      | none ↦ none
      | some rest ↦
          if is_affected index route ops
          then elim (write entry shard.wal) [
            | none ↦ none
            | some wal ↦ some (record shard { wal = wal } ∷ rest)
          ]
          else some (shard ∷ rest)
    ]

-- The loop over the operations, with the height of each new node.
unfoldable pub apply_ops :
    {V : Type 0} → ℕ → List (LocalOp × ℕ) → LsmEngine V → Option (LsmEngine V)
unfolding shard_index delete_in_shard put_in_shard new_mvcc_key tag_stored_value
apply_ops ts [] e = some e
apply_ops ts ((op, height) ∷ ops) e = elim (get_elem? e.shards (shard_index op.key e)) [
  | none ↦ none
  | some shard ↦
      elim (if op.is_delete
        then delete_in_shard (new_mvcc_key op.key ts) height (shard_index op.key e) shard e
        else put_in_shard (new_mvcc_key op.key ts) (tag_stored_value (some op.value)) height
            (shard_index op.key e) shard e) [
              | none ↦ none
              | some e' ↦
                  apply_ops ts ops
                    (record e' { cache = update_last_commit_cache op.key ts e'.cache })
            ]
]

abbrev pub with_heights : (ℕ → ℕ) → ℕ → List LocalOp → List (LocalOp × ℕ)
with_heights heights i [] = []
with_heights heights i (op ∷ ops) = (op, heights i) ∷ with_heights heights (suc i) ops

unfoldable pub write_atomic_batch : {V : Type 0} → Bytes → ℕ → (ℕ → ℕ) → LsmEngine V → Written V
unfolding decode_batch_local log_batch apply_ops shard_index
write_atomic_batch input ts heights e =
    if e.closed then some (some engine_closed, e) else elim (decode_batch_local input) [
      | err failure ↦ some (some batch_malformed, e)
      | ok ops ↦
          elim (log_batch (log_entry op_batch [] input ts) 0 (λ key. shard_index key e) ops
            e.shards) [
              | none ↦ some (some wal_failed, e)
              | some shards ↦
                  elim (apply_ops ts (with_heights heights 0 ops) (record e { shards = shards })) [
                    | none ↦ none
                    | some e' ↦ no_error e'
                  ]
            ]
    ]
