-- ===== src/Txn/Transaction/Committed.antt =====
-- What Commit does to the engine's log of batches, whatever the orders in which it visits the map.
use scoria_db.Base.{
  All-Perm, length-Perm, ℕ, suc, ◌+◌, ◌^◌, ◌<◌, ◌≡◌, refl, ap, ◌∙◌, ◌≢◌, ◌⊎◌, inl, inr, true, false,
  none, some, List, [], ◌∷◌, ◌++◌, map, append-nil, append_assoc, arith, ◌==◌, Option-cases, length,
  All, ok, ok_of_bind, Result-cases, choose_else, choose_some, choose_none,
}
use scoria_db.Base.Bytes.{Bytes}
use mathlib.Core.List.{Permᴰ}
use scoria_db.Base.Map.{Map, bytes_key}
use scoria_db.Txn.Batch.{
  WriteBatch, BatchOp, new_write_batch, encode_batch, decode_batch, size, op_put, op_delete,
  add_put, add_delete,
}
use scoria_db.Txn.Batch.RoundTrip.{IsEncodable, decode_batch-encode_batch}
use scoria_db.Txn.Interface.{Engine, EngineLaws}
use scoria_db.Txn.Transaction.{
  TxnError, PendingOp, Transaction, wrap_write, check_all, apply_batch_with_ts, later_than,
  write_all, commit_writes, commit, add_all, add_pending, slice,
}

abbrev pub pending : Map Bytes PendingOp → List PendingOp
pending writes = map (λ entry. entry.1) writes

length-pending : (writes : Map Bytes PendingOp) → length (pending writes) ≡ length writes
length-pending [] = refl
length-pending (w ∷ writes) = ap suc (length-pending writes)

abbrev pub IsKnown : PendingOp → Type 0
IsKnown op = (op.op_type ≡ op_put) ⊎ ((op.op_type ≡ op_delete) × (op.value ≡ none))

-- The operation of the batch for a pending write.
abbrev pub batch_op_of : PendingOp → BatchOp
batch_op_of op = record { op_type = op.op_type; key = op.key; value = slice op.value }

add_pending-op :
    (op : PendingOp) (b : WriteBatch)
    → IsKnown op
    → add_pending op b ≡ record { ops = b.ops ++ batch_op_of op ∷ [] }
unfolding add_pending add_put add_delete
add_pending-op op b (inl t) = rw t refl
add_pending-op op b (inr (t, z)) = rw (t, z) refl

add_all-ops :
    (ops : List PendingOp) (b : WriteBatch)
    → All IsKnown ops
    → add_all ops b ≡ record { ops = b.ops ++ map batch_op_of ops }
unfolding add_all
add_all-ops [] b h = rw (append-nil b.ops) refl
add_all-ops (op ∷ ops) b (k, h) =
    ap (add_all ops) (add_pending-op op b k)
    ∙ add_all-ops ops (record { ops = b.ops ++ batch_op_of op ∷ [] }) h
    ∙ rw (append_assoc b.ops (batch_op_of op ∷ []) (map batch_op_of ops)) refl

length-batch_ops : (ops : List PendingOp) → length (map batch_op_of ops) ≡ length ops
length-batch_ops [] = refl
length-batch_ops (op ∷ ops) = ap suc (length-batch_ops ops)

module _ {S E : Type 0} (engine : Engine S E) where
  -- Some check of the loop, in the state that the checks before it leave, finds a conflict.
  abbrev pub FindsConflict : List PendingOp → ℕ → S → Type 0
  FindsConflict [] ts s = ⊥
  FindsConflict (op ∷ ops) ts s =
      let (verdict, s') = engine.check_conflict op.key ts s in
      (verdict ≡ ok true) ⊎ FindsConflict ops ts s'

  -- No check of the loop, in the state that the checks before it leave, finds a conflict or fails.
  abbrev pub FindsNone : List PendingOp → ℕ → S → Type 0
  FindsNone [] ts s = Unit
  FindsNone (op ∷ ops) ts s =
      let (verdict, s') = engine.check_conflict op.key ts s in
      (verdict ≡ ok false) × FindsNone ops ts s'

module _ {S E : Type 0} (engine : Engine S E) (laws : EngineLaws engine) where
  log-check_all :
      (ops : List PendingOp) (ts : ℕ) (s : S) → laws.log (check_all engine ops ts s).1 ≡ laws.log s
  unfolding check_all
  log-check_all [] ts s = refl
  log-check_all (op ∷ ops) ts s =
      let (verdict, s') = engine.check_conflict op.key ts s in
      elim (Result-cases verdict) [
        | inl (true, e) ↦ rw (e, check_all) (laws.log-check_conflict op.key ts s)
        | inl (false, e) ↦
            rw (e, check_all) (log-check_all ops ts s' ∙ laws.log-check_conflict op.key ts s)
        | inr (x, e) ↦ rw (e, check_all) (laws.log-check_conflict op.key ts s)
      ]

  check_all_conflict :
      (ops : List PendingOp) (ts : ℕ) (s : S)
      → FindsConflict engine ops ts s
      → (check_all engine ops ts s).0 ≢ none
  unfolding check_all
  check_all_conflict [] ts s h = absurd h
  check_all_conflict (op ∷ ops) ts s (inl v) = rw (v, check_all) (λ e. ground (arith, e))
  check_all_conflict (op ∷ ops) ts s (inr h) =
      let (verdict, s') = engine.check_conflict op.key ts s in
      let later = check_all_conflict ops ts s' h in
      elim (Result-cases verdict) [
        | inl (true, e) ↦ rw (e, check_all) (λ e. ground (arith, e))
        | inl (false, e) ↦ rw (e, check_all) later
        | inr (x, e) ↦ rw (e, check_all) (λ e. ground (arith, e))
      ]

  check_all_clean :
      (ops : List PendingOp) (ts : ℕ) (s : S)
      → FindsNone engine ops ts s
      → (check_all engine ops ts s).0 ≡ none
  unfolding check_all
  check_all_clean [] ts s h = refl
  check_all_clean (op ∷ ops) ts s (v, h) =
      rw (v, check_all) (check_all_clean ops ts (engine.check_conflict op.key ts s).1 h)

  commit-open :
      (checked batched : List PendingOp) (tx : Transaction) (s : S)
      → tx.closed ≡ false
      → let r = commit_writes engine checked batched tx s in
        commit engine checked batched tx s
        ≡ (r.0, record tx { closed = true }, engine.unregister_snapshot tx.start_ts r.1)
  unfolding commit
  commit-open checked batched tx s o = choose_else tx.closed _ _ o

  commit_writes-refused :
      (checked batched : List PendingOp) (tx : Transaction) (s : S) (e : TxnError E)
      → 0 < length tx.writes
      → (check_all engine checked tx.start_ts s).0 ≡ some e
      → commit_writes engine checked batched tx s
        ≡ (some e, (check_all engine checked tx.start_ts s).1)
  unfolding commit_writes
  commit_writes-refused checked batched tx s e l h =
      choose_else (length tx.writes == 0) _ _ (ground (arith, l))
      ∙ choose_some (check_all engine checked tx.start_ts s).0 _ _ e h

  commit_writes-clean :
      (checked batched : List PendingOp) (tx : Transaction) (s : S)
      → 0 < length tx.writes
      → (check_all engine checked tx.start_ts s).0 ≡ none
      → commit_writes engine checked batched tx s
        ≡ write_all engine batched tx.start_ts (check_all engine checked tx.start_ts s).1
  unfolding commit_writes
  commit_writes-clean checked batched tx s l h =
      choose_else (length tx.writes == 0) _ _ (ground (arith, l))
      ∙ choose_none (check_all engine checked tx.start_ts s).0 _ _ h

  some_checked :
      (ops : List PendingOp) (ts : ℕ) (s : S) → FindsConflict engine ops ts s → 0 < length ops
  some_checked [] ts s h = absurd h
  some_checked (op ∷ ops) ts s h = omega arith

  -- On an engine that keeps the laws of the interface: if the check of some pending write, in the
  -- state that the checks before it leave, finds a conflict, Commit of an open transaction fails,
  -- writes nothing to the log, and closes the transaction, in whatever order it checks the keys.
  pub commit_conflict :
      (checked batched : List PendingOp) (tx : Transaction) (s : S)
      → tx.closed ≡ false
      → Permᴰ (pending tx.writes) checked
      → FindsConflict engine checked tx.start_ts s
      → let (failure, tx', s') = commit engine checked batched tx s in
        (failure ≢ none) × (laws.log s' ≡ laws.log s) × (tx'.closed ≡ true)
  commit_conflict checked batched tx s o p a =
      let c = check_all engine checked tx.start_ts s in
      let n : 0 < length tx.writes =
        omega
          (arith, some_checked checked tx.start_ts s a, length-pending tx.writes, length-Perm p) in
      elim (Option-cases c.0) [
        | inl none_failed ↦ absurd (check_all_conflict checked tx.start_ts s a none_failed)
        | inr (e, y) ↦
            rw
              (commit-open checked batched tx s o, commit_writes-refused checked batched tx s e n y)
              (
                λ q. ground (arith, q),
                laws.log-unregister_snapshot tx.start_ts c.1 ∙ log-check_all checked tx.start_ts s,
                refl,
              )
      ]

  later_than-lt :
      (start_ts ts : ℕ) → start_ts + 1 < 2 ^ 64 → start_ts < later_than engine start_ts ts
  unfolding later_than
  later_than-lt start_ts ts u = ground arith

  apply-written :
      (b : WriteBatch) (bytes : Bytes) (ts : ℕ) (s : S)
      → 0 < length b.ops
      → encode_batch b ≡ ok bytes
      → (engine.write_atomic_batch bytes ts s).0 ≡ none
      → let (failure, s') = apply_batch_with_ts engine b ts s in
        (failure ≡ none) × (laws.log s' ≡ laws.log s ++ (bytes, ts) ∷ [])
  unfolding apply_batch_with_ts wrap_write size
  apply-written b bytes ts s l e w =
      rw (choose_else (length b.ops == 0) _ _ (ground (arith, l)), e, w)
        (refl, laws.log-write_atomic_batch bytes ts s w)

  write_all-batch :
      (batched : List PendingOp) (b : WriteBatch) (start_ts : ℕ) (s : S)
      → add_all batched new_write_batch ≡ b
      → let (next, s') = engine.next_timestamp s in
        write_all engine batched start_ts s
        ≡ apply_batch_with_ts engine b (later_than engine start_ts next) s'
  unfolding write_all
  write_all-batch batched b start_ts s e =
      let (next, s') = engine.next_timestamp s in
      ap (λ x. apply_batch_with_ts engine x (later_than engine start_ts next) s') e

  -- On an engine that keeps the laws of the interface: if no check of a pending write, in the state
  -- that the checks before it leave, finds a conflict or fails, and the engine accepts the encoded
  -- batch at the commit timestamp in the state behind the checks and the new timestamp, Commit of
  -- an open transaction with a pending write succeeds, in whatever orders it visits the map: it
  -- writes one batch to the log, which decodes to the pending writes, at a timestamp above the
  -- transaction's start, and closes the transaction. The batch fits the format, and the start is
  -- below the greatest uint64.
  pub commit_clean :
      (checked batched : List PendingOp) (tx : Transaction) (s : S) (bytes : Bytes)
      → tx.closed ≡ false
      → 0 < length tx.writes
      → tx.start_ts + 1 < 2 ^ 64
      → All IsKnown (pending tx.writes)
      → Permᴰ (pending tx.writes) checked
      → Permᴰ (pending tx.writes) batched
      → FindsNone engine checked tx.start_ts s
      → IsEncodable (record { ops = map batch_op_of batched })
      → encode_batch (record { ops = map batch_op_of batched }) ≡ ok bytes
      → let (next, s') = engine.next_timestamp (check_all engine checked tx.start_ts s).1 in
        (engine.write_atomic_batch bytes (later_than engine tx.start_ts next) s').0 ≡ none
        → let (failure, tx', s') = commit engine checked batched tx s in
          (ts : ℕ) × (failure ≡ none)
          × (laws.log s' ≡ laws.log s ++ (bytes, ts) ∷ [])
          × (decode_batch bytes ≡ ok (record { ops = map batch_op_of batched }))
          × (tx.start_ts < ts)
          × (tx'.closed ≡ true)
  commit_clean checked batched tx s bytes o l u k p q v f encoded accepted =
      let b : WriteBatch = record { ops = map batch_op_of batched } in
      let (other, same, decoded) =
        ok_of_bind (encode_batch b) (λ bytes. decode_batch bytes) (decode_batch-encode_batch b f) in
      let decoded' : decode_batch bytes ≡ ok b = ground (arith, encoded, same, decoded) in
      let s1 = (check_all engine checked tx.start_ts s).1 in
      let (next, s2) = engine.next_timestamp s1 in
      let ts = later_than engine tx.start_ts next in
      let filled : add_all batched new_write_batch ≡ b =
        add_all-ops batched new_write_batch (All-Perm IsKnown q k) in
      let n : 0 < length batched = omega (arith, l, length-pending tx.writes, length-Perm q) in
      let (none_failed, logged) =
        apply-written b bytes ts s2 (omega (arith, n, length-batch_ops batched)) encoded accepted in
      let clean = check_all_clean checked tx.start_ts s v in
      let wrote =
        commit_writes-clean checked batched tx s l clean
        ∙ write_all-batch batched b tx.start_ts s1 filled in
      rw (commit-open checked batched tx s o, wrote)
        (
          ts,
          none_failed,
          laws.log-unregister_snapshot tx.start_ts (apply_batch_with_ts engine b ts s2).1
              ∙ logged
              ∙ ap (λ log. log ++ (bytes, ts) ∷ [])
                  (laws.log-next_timestamp s1 ∙ log-check_all checked tx.start_ts s),
          decoded',
          later_than-lt tx.start_ts next u,
          refl,
        )
