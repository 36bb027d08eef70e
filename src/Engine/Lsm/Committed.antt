-- ===== src/Engine/Lsm/Committed.antt =====
-- Conflict checks after a write: the cache knows its timestamp.
use scoria_db.Base.{
  subst, ℕ, ◌≡◌, refl, sym, ap, ◌∙◌, ◌⊎◌, inl, inr, Option, none, some, [], ◌∷◌, ltb, leb,
  Bool-cases, Option-cases, length, get_elem?, ok, choose_else, choose_then, choose_some,
}
use scoria_db.Base.Bytes.{Bytes}
use scoria_db.Mvcc.{MvccKey, new_mvcc_key}
use scoria_db.Engine.ValuePointer.{type_inline, type_value_pointer, encode_value_pointer}
use scoria_db.Engine.Wal.{write, op_put, op_delete}
use scoria_db.Engine.Memtable.SkipList.{put, delete_with_ts}
use scoria_db.Engine.Cache.{LastCommitCache, update_last_commit_cache}
use scoria_db.Engine.Cache.Lookup.{IsValid}
use scoria_db.Engine.Cache.Updated.{known_ts, update_last_commit_cache-known_ts}
use scoria_db.Engine.Lsm.{ValueStores, LsmEngine, Shard, shard_index}
use scoria_db.Engine.Vlog.{max_inline_size}
use scoria_db.Engine.Lsm.Writes.{
  Written, committed, put_in_shard, delete_in_shard, put_large, put_inline, put_with_ts, delete_key,
  log_entry, pointer_to,
}
use scoria_db.Engine.Lsm.Conflicts.{check_conflict}

-- What a write that succeeds leaves in the cache.
abbrev pub Notes : {V : Type 0} → Bytes → ℕ → LastCommitCache → Written V → Type 0
Notes key ts c none = Unit {0}
Notes key ts c (some (some failure, e)) = Unit {0}
Notes key ts c (some (none, e)) = e.cache ≡ update_last_commit_cache key ts c

module _ {V : Type 0} (key : Bytes) (ts : ℕ) where
  committed-Notes :
      (c : LastCommitCache) (o : Option (LsmEngine V))
      → ((e : LsmEngine V) → o ≡ some e → e.cache ≡ c)
      → Notes key ts c (committed key ts o)
  committed-Notes c none h = tt
  committed-Notes c (some e) h = ap (update_last_commit_cache key ts) (h e refl)

  put_in_shard-cache :
      (k : MvccKey) (stored : Bytes) (height index : ℕ) (shard : Shard) (e : LsmEngine V)
      → Notes key ts e.cache (committed key ts (put_in_shard k stored height index shard e))
  unfolding put_in_shard
  put_in_shard-cache k stored height index shard e =
      elim (Option-cases (put k (some stored) height shard.mem_table)) [
        | inl n ↦ rw (put_in_shard, n) tt
        | inr ((added, table), y) ↦ rw (put_in_shard, y) refl
      ]

  delete_in_shard-cache :
      (k : MvccKey) (height index : ℕ) (shard : Shard) (e : LsmEngine V)
      → Notes key ts e.cache (committed key ts (delete_in_shard k height index shard e))
  unfolding delete_in_shard
  delete_in_shard-cache k height index shard e =
      elim (Option-cases (delete_with_ts k height shard.mem_table)) [
        | inl n ↦ rw (delete_in_shard, n) tt
        | inr ((added, table), y) ↦ rw (delete_in_shard, y) refl
      ]

  put_inline-Notes :
      (stores : ValueStores V) (value : Bytes) (height : ℕ) (e : LsmEngine V)
      → Notes key ts e.cache (put_inline stores key value ts height e)
  unfolding put_inline
  put_inline-Notes stores value height e =
      elim (Option-cases (get_elem? e.shards (shard_index key e))) [
        | inl n ↦ rw (put_inline, n) tt
        | inr (shard, y) ↦ elim (Option-cases (write (log_entry op_put key value ts) shard.wal)) [
          | inl n ↦ rw (put_inline, y, n) tt
          | inr (wal, w) ↦
              let k = new_mvcc_key key ts in
              let s' : Shard = record shard { wal = wal } in
              let q : put_inline stores key value ts height e
                  ≡ committed key ts
                      (put_in_shard k (type_inline ∷ value) height (shard_index key e) s' e) =
                rw (put_inline, y, w) refl in
              subst (Notes key ts e.cache) (sym q)
                (put_in_shard-cache k (type_inline ∷ value) height (shard_index key e) s' e)
        ]
      ]

  put_large-Notes :
      (stores : ValueStores V) (value : Bytes) (height : ℕ) (e : LsmEngine V)
      → Notes key ts e.cache (put_large stores key value ts height e)
  unfolding put_large
  put_large-Notes stores value height e =
      elim (Option-cases (stores.write_entry op_put key value ts e.values)) [
        | inl n ↦ rw (put_large, n) tt
        | inr ((offset, values), w) ↦ elim (Option-cases (get_elem? e.shards (shard_index key e))) [
          | inl n ↦ rw (put_large, w, n) tt
          | inr (shard, y) ↦
              let k = new_mvcc_key key ts in
              let stored = type_value_pointer ∷ encode_value_pointer (pointer_to offset value) in
              let e' : LsmEngine V = record e { values = values } in
              let q : put_large stores key value ts height e
                  ≡ committed key ts (put_in_shard k stored height (shard_index key e) shard e') =
                rw (put_large, w, y) refl in
              subst (Notes key ts e.cache) (sym q)
                (put_in_shard-cache k stored height (shard_index key e) shard e')
        ]
      ]

  put_with_ts-Notes :
      (stores : ValueStores V) (value : Bytes) (height : ℕ) (e : LsmEngine V)
      → Notes key ts e.cache (put_with_ts stores key value ts height e)
  unfolding put_with_ts
  put_with_ts-Notes stores value height e = elim (Bool-cases e.closed) [
    | inl y ↦ rw (put_with_ts, y) tt
    | inr n ↦ elim (Bool-cases (leb (length value) max_inline_size)) [
      | inl y ↦
          let q : put_with_ts stores key value ts height e
              ≡ put_inline stores key value ts height e =
            choose_else e.closed _ _ n ∙ choose_then (leb (length value) max_inline_size) _ _ y in
          subst (Notes key ts e.cache) (sym q) (put_inline-Notes stores value height e)
      | inr z ↦
          let q : put_with_ts stores key value ts height e
              ≡ put_large stores key value ts height e =
            choose_else e.closed _ _ n ∙ choose_else (leb (length value) max_inline_size) _ _ z in
          subst (Notes key ts e.cache) (sym q) (put_large-Notes stores value height e)
    ]
  ]

  delete_key-Notes :
      (height : ℕ) (e : LsmEngine V) → Notes key ts e.cache (delete_key key ts height e)
  unfolding delete_key
  delete_key-Notes height e = elim (Bool-cases e.closed) [
    | inl y ↦ rw (delete_key, y) tt
    | inr n ↦ elim (Option-cases (get_elem? e.shards (shard_index key e))) [
      | inl z ↦ rw (delete_key, n, z) tt
      | inr (shard, y) ↦ elim (Option-cases (write (log_entry op_delete key [] ts) shard.wal)) [
        | inl z ↦ rw (delete_key, n, y, z) tt
        | inr (wal, w) ↦
            let k = new_mvcc_key key ts in
            let s' : Shard = record shard { wal = wal } in
            let q : delete_key key ts height e
                ≡ committed key ts (delete_in_shard k height (shard_index key e) s' e) =
              choose_else e.closed _ _ n
              ∙ choose_some (get_elem? e.shards (shard_index key e)) _ _ shard y
              ∙ choose_some (write (log_entry op_delete key [] ts) shard.wal) _ _ wal w in
            subst (Notes key ts e.cache) (sym q)
              (delete_in_shard-cache k height (shard_index key e) s' e)
      ]
    ]
  ]

  -- A check of a key in the cache.
  check_known :
      (stores : ValueStores V) (start : ℕ) (e : LsmEngine V)
      → known_ts key e.cache ≡ some ts
      → (check_conflict stores key start e).0 ≡ ok (ltb start ts)
  unfolding check_conflict
  check_known stores start e k = rw (check_conflict, k) refl

  check_noted :
      (stores : ValueStores V) (start : ℕ) (e e' : LsmEngine V)
      → IsValid e.cache
      → e'.cache ≡ update_last_commit_cache key ts e.cache
      → (check_conflict stores key start e').0 ≡ ok (ltb start ts)
  check_noted stores start e e' v n =
      check_known stores start e'
        (ap (known_ts key) n ∙ (update_last_commit_cache-known_ts key ts e.cache v).1)

-- After a put or a deletion that succeeds, on an engine with a valid cache, a conflict check of the key
-- succeeds and reports a conflict to just those that started before the timestamp of this last write,
-- also where the key has an earlier write of a later timestamp.
pub check_conflict-written :
    {V : Type 0} (stores : ValueStores V) (key value : Bytes) (ts height start : ℕ)
    (e e' : LsmEngine V)
    → IsValid e.cache
    → (put_with_ts stores key value ts height e ≡ some (none, e'))
      ⊎ (delete_key key ts height e ≡ some (none, e'))
    → (check_conflict stores key start e').0 ≡ ok (ltb start ts)
check_conflict-written stores key value ts height start e e' v (inl w) =
    check_noted key ts stores start e e' v
      (subst (Notes key ts e.cache) w (put_with_ts-Notes key ts stores value height e))
check_conflict-written stores key value ts height start e e' v (inr w) =
    check_noted key ts stores start e e' v
      (subst (Notes key ts e.cache) w (delete_key-Notes key ts height e))
