-- ===== src/Txn/Transaction/Lifecycle.antt =====
-- The calls of a transaction keep its snapshot held until it is closed, and release it once.
use scoria_db.Base.{
  ℕ, ◌+◌, ◌≡◌, refl, ap, ◌∙◌, inl, inr, Option, List, [], ◌∷◌, arith, if◌then◌else◌, Option-cases,
  Result-cases,
}
use scoria_db.Base.Bytes.{Bytes}
use scoria_db.Base.Map.{bytes_key, lookup}
use scoria_db.Txn.Batch.{WriteBatch, new_write_batch, encode_batch}
use scoria_db.Txn.Interface.{Engine, EngineLaws, one_at}
use scoria_db.Txn.Transaction.{
  PendingOp, Transaction, put, delete, begin_txn, get, wrap_read, wrap_write, check_all,
  apply_batch_with_ts, later_than, write_all, commit_writes, commit, rollback, add_all,
}

pub data Call : Type 0 where
  put_call : Bytes → Option Bytes → Call
  delete_call : Bytes → Call
  get_call : Bytes → Call
  commit_call : List PendingOp → List PendingOp → Call
  rollback_call : Call

module _ {S E : Type 0} (engine : Engine S E) where
  abbrev pub call : Call → Transaction × S → Transaction × S
  call (put_call key value) (tx, s) = ((put key value tx).1, s)
  call (delete_call key) (tx, s) = ((delete key tx).1, s)
  call (get_call key) (tx, s) = (tx, (get engine key tx s).1)
  call (commit_call checked batched) (tx, s) =
      let (_, tx, s) = commit engine checked batched tx s in (tx, s)
  call rollback_call (tx, s) = let (_, tx, s) = rollback engine tx s in (tx, s)

  -- The last call is the head.
  abbrev pub calls : List Call → Transaction × S → Transaction × S
  calls [] here = here
  calls (c ∷ earlier) here = call c (calls earlier here)

  start_ts-call : (c : Call) (tx : Transaction) (s : S) → (call c (tx, s)).0.start_ts ≡ tx.start_ts
  unfolding put delete commit rollback
  start_ts-call (put_call key value) tx s = ground arith
  start_ts-call (delete_call key) tx s = ground arith
  start_ts-call (get_call key) tx s = refl
  start_ts-call (commit_call checked batched) tx s = ground arith
  start_ts-call rollback_call tx s = ground arith

  start_ts-calls :
      (cs : List Call) (tx : Transaction) (s : S) → (calls cs (tx, s)).0.start_ts ≡ tx.start_ts
  start_ts-calls [] tx s = refl
  start_ts-calls (c ∷ cs) tx s =
      let (tx', s') = calls cs (tx, s) in start_ts-call c tx' s' ∙ start_ts-calls cs tx s

  module _ (laws : EngineLaws engine) where
    held-check_all :
        (ops : List PendingOp) (t ts : ℕ) (s : S)
        → laws.held ts (check_all engine ops t s).1 ≡ laws.held ts s
    unfolding check_all
    held-check_all [] t ts s = refl
    held-check_all (op ∷ ops) t ts s =
        let (verdict, s') = engine.check_conflict op.key t s in
        ground (arith, laws.held-check_conflict op.key t ts s, held-check_all ops t ts s')

    held-apply :
        (b : WriteBatch) (t ts : ℕ) (s : S)
        → laws.held ts (apply_batch_with_ts engine b t s).1 ≡ laws.held ts s
    unfolding apply_batch_with_ts wrap_write
    held-apply b t ts s = elim (Result-cases (encode_batch b)) [
      | inl (bytes, e) ↦ rw e (ground (arith, laws.held-write_atomic_batch bytes t ts s))
      | inr (failure, e) ↦ rw e (ground arith)
    ]

    held-commit_writes :
        (checked batched : List PendingOp) (tx : Transaction) (ts : ℕ) (s : S)
        → laws.held ts (commit_writes engine checked batched tx s).1 ≡ laws.held ts s
    unfolding commit_writes write_all
    held-commit_writes checked batched tx ts s =
        let (failure, s1) = check_all engine checked tx.start_ts s in
        let (t, s2) = engine.next_timestamp s1 in
        ground (
          arith,
          held-check_all checked tx.start_ts ts s,
          laws.held-next_timestamp ts s1,
          held-apply (add_all batched new_write_batch) (later_than engine tx.start_ts t) ts s2,
        )

    held-get :
        (key : Bytes) (tx : Transaction) (ts : ℕ) (s : S)
        → laws.held ts (get engine key tx s).1 ≡ laws.held ts s
    unfolding get wrap_read
    held-get key tx ts s = elim (Option-cases (lookup key tx.writes)) [
      | inl e ↦ rw e (ground (arith, laws.held-get_with_ts key tx.start_ts ts s))
      | inr (op, e) ↦ rw e (ground arith)
    ]

    -- What an open transaction holds of the snapshot at `ts`.
    abbrev pub holding : ℕ → Transaction → ℕ
    holding ts tx = if tx.closed then 0 else one_at tx.start_ts ts

    held-call :
        (c : Call) (tx : Transaction) (s : S) (ts base : ℕ)
        → laws.held ts s ≡ base + holding ts tx
        → let (tx', s') = call c (tx, s) in laws.held ts s' ≡ base + holding ts tx'
    unfolding put delete commit rollback
    held-call (put_call key value) tx s ts base h = ground (arith, h)
    held-call (delete_call key) tx s ts base h = ground (arith, h)
    held-call (get_call key) tx s ts base h = held-get key tx ts s ∙ h
    held-call (commit_call checked batched) tx s ts base h =
        let (failure, s') = commit_writes engine checked batched tx s in
        ground (
          arith,
          h,
          held-commit_writes checked batched tx ts s,
          laws.held-unregister_snapshot tx.start_ts ts s',
        )
    held-call rollback_call tx s ts base h =
        ground (arith, h, laws.held-unregister_snapshot tx.start_ts ts s)

    held-rest :
        (cs : List Call) (tx : Transaction) (s : S) (ts base : ℕ)
        → laws.held ts s ≡ base + holding ts tx
        → let (tx', s') = calls cs (tx, s) in laws.held ts s' ≡ base + holding ts tx'
    held-rest [] tx s ts base h = h
    held-rest (c ∷ cs) tx s ts base h =
        let (tx', s') = calls cs (tx, s) in held-call c tx' s' ts base (held-rest cs tx s ts base h)

    -- On an engine that keeps the laws of the interface, a transaction that has begun at `start_ts`
    -- adds one holder to that snapshot and to no other as long as it is open, after any calls,
    -- failed ones included; when it is closed, the snapshots have the holders that they had before
    -- it began.
    pub held-calls :
        (start_ts : ℕ) (s : S) (cs : List Call) (ts : ℕ)
        → let (tx, s') = calls cs (begin_txn engine start_ts s) in
          laws.held ts s' ≡ laws.held ts s + (if tx.closed then 0 else one_at start_ts ts)
    unfolding begin_txn
    held-calls start_ts s cs ts =
        let (tx, s') = begin_txn engine start_ts s in
        let out = calls cs (tx, s') in
        held-rest cs tx s' ts (laws.held ts s) (laws.held-register_snapshot start_ts ts s)
        ∙ ap (λ t. laws.held ts s + (if out.0.closed then 0 else one_at t ts))
            (start_ts-calls cs tx s')
