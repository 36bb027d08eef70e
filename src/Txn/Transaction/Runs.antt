-- ===== src/Txn/Transaction/Runs.antt =====
-- Transactions on an engine of a clock, a log of batches, a count for each snapshot, and the keys
-- that are in conflict.
use scoria_db.Keys.{compare_keys}
use scoria_db.Engine.Lsm.Writes.{write_atomic_batch}
use scoria_db.Engine.Memtable.Arena.{node_at}
use scoria_db.Engine.Lsm.Conflicts.{check_conflict}
use scoria_db.Base.{
  ℕ, ◌+◌, ◌-◌, ◌<◌, ◌≡◌, refl, ◌≢◌, inl, true, false, none, some, List, [], ◌∷◌, ◌++◌, map, arith,
  if◌then◌else◌, ok, length, inr,
}
use scoria_db.Base.Bytes.{Bytes, be_bytes, read, split, be_value}
use mathlib.Core.List.{Permᴰ}
use mathlib.Core.List.Permᴰ as Permᴰ
use scoria_db.Base.Map.{bytes_key, bytes_equal, lookup}
use scoria_db.Txn.Batch.{op_put, encode_batch, decode_batch}
use scoria_db.Txn.Batch.RoundTrip.{Fits}
use scoria_db.Txn.Interface.{Engine, one_at}
use scoria_db.Txn.Transaction.{
  PendingOp, Transaction, get, begin_txn, check_all, later_than, commit, rollback, put,
}
use scoria_db.Txn.Transaction.ReadYourWrites.{put_of, delete_of, written, get-written}
use scoria_db.Txn.Transaction.Lifecycle.{Call, calls, held-calls, put_call, rollback_call}
use scoria_db.Txn.Transaction.Committed.{
  commit_conflict, commit_clean, batch_op_of, FindsConflict, FindsNone,
}
use scoria_db.Engine.Snapshot.{new_snapshot_registry}
use scoria_db.Engine.Cache.{empty_cache, update_last_commit_cache}
use scoria_db.Engine.Memtable.SkipList.Fresh.{fresh_list}
use scoria_db.Engine.Lsm.{ValueStores, next_timestamp}
use scoria_db.Engine.Lsm.Transactional.{
  State, Failure, as_engine, as_engine_laws, holders, outcome_of,
}

record Toy : Type 0 where
  clock : ℕ
  log : List (Bytes × ℕ)
  held : ℕ → ℕ
  dirty : Bytes

abbrev toy : Engine Toy Unit
toy = record {
  write_atomic_batch = λ bytes ts s. (none, record s { log = s.log ++ (bytes, ts) ∷ [] });
  next_timestamp = λ s. (s.clock, record s { clock = s.clock + 1 });
  register_snapshot = λ t s. record s { held = λ ts. s.held ts + one_at t ts };
  unregister_snapshot = λ t s. record s { held = λ ts. s.held ts - one_at t ts };
  check_conflict = λ key ts s. (ok (bytes_equal key s.dirty), s);
  get_with_ts = λ key ts s. (ok (some (9 ∷ [])), s);
}

abbrev fresh : Toy
fresh = record { clock = 6; log = []; held = λ ts. 0; dirty = 2 ∷ [] }

-- A put, then a delete of another key, then a put of the first: the last one is read.
get-written_example :
    get toy
      (1 ∷ [])
      (written
        (put_of (1 ∷ []) (some (5 ∷ []))
          ∷ delete_of (2 ∷ [])
          ∷ put_of (1 ∷ []) (some (4 ∷ []))
          ∷ [])
        (begin_txn toy 5 fresh).0)
      (begin_txn toy 5 fresh).1
    ≡ (ok (some (5 ∷ [])), (begin_txn toy 5 fresh).1)
unfolding bytes_equal
get-written_example =
    get-written toy 5 fresh
      (put_of (1 ∷ []) (some (5 ∷ [])) ∷ delete_of (2 ∷ []) ∷ put_of (1 ∷ []) (some (4 ∷ [])) ∷ [])
      (1 ∷ [])

-- The engine of the program with one shard without data, where key 2 was written at 9.
abbrev no_stores : ValueStores Bytes
no_stores = record {
  write_entry = λ op key value ts bytes. none;
  mmap_size = length;
  read_value = λ offset size bytes. none;
  vlog_size = λ bytes. 0;
  read_direct = λ vp bytes. none;
}

abbrev engine : Engine (State Bytes) Failure
engine = as_engine no_stores (λ i. 1)

abbrev idle : State Bytes
unfolding new_snapshot_registry update_last_commit_cache
idle = record {
  lsm = record {
    closed = false;
    last_ts = 5;
    shards = record { mem_table = fresh_list; frozen_mem_table = none; wal = [] } ∷ [];
    levels = [];
    cache = update_last_commit_cache (2 ∷ []) 9 empty_cache;
    values = [];
  };
  snapshots = new_snapshot_registry;
  history = [];
}

abbrev two_calls : List Call
two_calls = rollback_call ∷ put_call (1 ∷ []) none ∷ []

held-calls_example :
    let (tx, s) = calls engine two_calls (begin_txn engine 5 idle) in
    holders no_stores (λ i. 1) 5 s ≡ 0 + (if tx.closed then 0 else one_at 5 5)
unfolding rollback lookup put idle
held-calls_example = held-calls engine (as_engine_laws no_stores (λ i. 1)) 5 idle two_calls 5

abbrev put_one : ℕ → PendingOp
put_one k = record { op_type = op_put; key = k ∷ []; value = some (7 ∷ []) }

abbrev started : List ℕ → Transaction
started ks = record { start_ts = 5; writes = map (λ k. (k ∷ [], put_one k)) ks; closed = false }

second_conflicts : FindsConflict engine (put_one 1 ∷ put_one 2 ∷ []) 5 idle
unfolding check_conflict idle bytes_equal fresh_list node_at
second_conflicts = inr (inl refl)

commit_conflict_example :
    let (failure, tx, s) =
      commit engine (put_one 1 ∷ put_one 2 ∷ []) [] (started (2 ∷ 1 ∷ [])) idle in
    (failure ≢ none) × (s.history ≡ []) × (tx.closed ≡ true)
unfolding idle
commit_conflict_example =
    commit_conflict engine (as_engine_laws no_stores (λ i. 1)) (put_one 1 ∷ put_one 2 ∷ []) []
      (started (2 ∷ 1 ∷ [])) idle refl (Permᴰ.swap refl refl) second_conflicts

put_one-Fits : (k : ℕ) → Fits (batch_op_of (put_one k))
put_one-Fits k = record { known = inl refl; key_fits = omega arith; value_fits = omega arith }

abbrev both_puts : Bytes
both_puts = 0 ∷ 2 ∷ 1 ∷ 0 ∷ 1 ∷ 3 ∷ 0 ∷ 0 ∷ 0 ∷ 1 ∷ 7 ∷ 1 ∷ 0 ∷ 1 ∷ 1 ∷ 0 ∷ 0 ∷ 0 ∷ 1 ∷ 7 ∷ []

both_encoded :
    encode_batch (record { ops = map batch_op_of (put_one 3 ∷ put_one 1 ∷ []) }) ≡ ok both_puts
unfolding encode_batch be_bytes
both_encoded = refl

none_conflicts : FindsNone engine (put_one 1 ∷ put_one 3 ∷ []) 5 idle
unfolding check_conflict idle bytes_equal fresh_list node_at
none_conflicts = (refl, (refl, tt))

accepted :
    let (next, s) =
      engine.next_timestamp (check_all engine (put_one 1 ∷ put_one 3 ∷ []) 5 idle).1 in
    (engine.write_atomic_batch both_puts (later_than engine 5 next) s).0 ≡ none
unfolding outcome_of write_atomic_batch next_timestamp check_all check_conflict idle bytes_equal
    fresh_list node_at read split be_value compare_keys
accepted = refl

commit_clean_example :
    let (failure, tx, s) =
      commit engine
        (put_one 1 ∷ put_one 3 ∷ [])
        (put_one 3 ∷ put_one 1 ∷ [])
        (started (3 ∷ 1 ∷ []))
        idle in
    (ts : ℕ) × (failure ≡ none)
    × (s.history ≡ (both_puts, ts) ∷ [])
    × (decode_batch both_puts ≡ ok (record { ops = map batch_op_of (put_one 3 ∷ put_one 1 ∷ []) }))
    × (5 < ts)
    × (tx.closed ≡ true)
unfolding idle
commit_clean_example =
    commit_clean engine (as_engine_laws no_stores (λ i. 1)) (put_one 1 ∷ put_one 3 ∷ [])
      (put_one 3 ∷ put_one 1 ∷ []) (started (3 ∷ 1 ∷ [])) idle both_puts refl (omega arith)
      (omega arith) (inl refl, (inl refl, tt)) (Permᴰ.swap refl refl) (Permᴰ.refl _) none_conflicts
      (record { count_fits = omega arith; all_fit = (put_one-Fits 3, (put_one-Fits 1, tt)) })
      both_encoded accepted
