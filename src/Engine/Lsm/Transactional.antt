-- ===== src/Engine/Lsm/Transactional.antt =====
-- The engine as transactions use it: internal/engine/lsm.go with its registry of snapshots, as the
-- interface of internal/txn/interface.go. `heights` are those that the skip lists draw.
use scoria_db.Base.{
  ℕ, ◌+◌, ◌-◌, ◌≡◌, refl, ap, inl, inr, Option, none, some, List, [], ◌∷◌, ◌++◌, arith,
  Option-cases, Result, ok, err,
}
use scoria_db.Base.Bytes.{Bytes}
use scoria_db.Base.Map.{nat_key, lookup, lookup-insert, lookup-delete}
use scoria_db.Engine.Snapshot.{
  SnapshotRegistry, count_or_zero, register_snapshot, unregister_snapshot, remove_reference,
  recompute_min_locked,
}
use scoria_db.Engine.Lsm.{ValueStores, LsmEngine, EngineError, next_timestamp}
use scoria_db.Engine.Lsm.Reads.{get_with_ts}
use scoria_db.Engine.Lsm.Writes.{Written, write_atomic_batch}
use scoria_db.Engine.Lsm.Conflicts.{check_conflict}
use scoria_db.Txn.Interface.{Engine, EngineLaws, one_at}

pub data Failure : Type 0 where
  refused : EngineError → Failure
  panicked : Failure

-- `history` is not part of the program: the batches that were written, with their timestamps.
pub record State (V : Type 0) : Type 0 where
  pub lsm : LsmEngine V
  pub snapshots : SnapshotRegistry
  pub history : List (Bytes × ℕ)

-- What a write makes of the state. A panic is not recovered from, so its state does not matter.
unfoldable pub outcome_of :
    {V : Type 0} → Bytes → ℕ → Written V → State V → Option Failure × State V
outcome_of bytes ts none s = (some panicked, s)
outcome_of bytes ts (some (some e, lsm)) s = (some (refused e), record s { lsm = lsm })
outcome_of bytes ts (some (none, lsm)) s =
    (none, record s { lsm = lsm; history = s.history ++ (bytes, ts) ∷ [] })

abbrev pub wrap_result : {A : Type 0} → Result EngineError A → Result Failure A
wrap_result (ok a) = ok a
wrap_result (err e) = err (refused e)

module _ {V : Type 0} (stores : ValueStores V) (heights : ℕ → ℕ) where
  abbrev pub as_engine : Engine (State V) Failure
  as_engine = record {
    write_atomic_batch =
        λ bytes ts s. outcome_of bytes ts (write_atomic_batch bytes ts heights s.lsm) s;
    next_timestamp = λ s. let (ts, lsm) = next_timestamp s.lsm in (ts, record s { lsm = lsm });
    register_snapshot = λ ts s. record s { snapshots = register_snapshot ts s.snapshots };
    unregister_snapshot = λ ts s. record s { snapshots = unregister_snapshot ts s.snapshots };
    check_conflict = λ key ts s.
        let (verdict, lsm) = check_conflict stores key ts s.lsm in
        (wrap_result verdict, record s { lsm = lsm });
    get_with_ts = λ key ts s. (wrap_result (get_with_ts stores key ts s.lsm), s);
  }

  -- The count that the registry keeps for a snapshot.
  abbrev pub holders : ℕ → State V → ℕ
  holders ts s = count_or_zero (lookup ts s.snapshots.counts)

  pub history-outcome_of :
      (bytes : Bytes) (ts : ℕ) (w : Written V) (s : State V)
      → (outcome_of bytes ts w s).0 ≡ none
      → (outcome_of bytes ts w s).1.history ≡ s.history ++ (bytes, ts) ∷ []
  unfolding outcome_of
  history-outcome_of bytes ts none s h = ground (arith, h)
  history-outcome_of bytes ts (some (some e, lsm)) s h = ground (arith, h)
  history-outcome_of bytes ts (some (none, lsm)) s h = refl

  pub snapshots-outcome_of :
      (bytes : Bytes) (ts : ℕ) (w : Written V) (s : State V)
      → (outcome_of bytes ts w s).1.snapshots ≡ s.snapshots
  unfolding outcome_of
  snapshots-outcome_of bytes ts none s = refl
  snapshots-outcome_of bytes ts (some (some e, lsm)) s = refl
  snapshots-outcome_of bytes ts (some (none, lsm)) s = refl

  pub count-register_snapshot :
      (t ts : ℕ) (r : SnapshotRegistry)
      → count_or_zero (lookup ts (register_snapshot t r).counts)
        ≡ count_or_zero (lookup ts r.counts) + one_at t ts
  unfolding register_snapshot
  count-register_snapshot t ts r =
      ground (arith, lookup-insert t ts (count_or_zero (lookup t r.counts) + 1) r.counts)

  pub count-unregister_snapshot :
      (t ts : ℕ) (r : SnapshotRegistry)
      → count_or_zero (lookup ts (unregister_snapshot t r).counts)
        ≡ count_or_zero (lookup ts r.counts) - one_at t ts
  unfolding unregister_snapshot recompute_min_locked remove_reference
  count-unregister_snapshot t ts r = elim (Option-cases (lookup t r.counts)) [
    | inl n ↦ rw (n, unregister_snapshot) (ground (arith, n))
    | inr (count, e) ↦
        rw (e, unregister_snapshot)
          (ground (arith, e, lookup-insert t ts (count - 1) r.counts, lookup-delete t ts r.counts))
  ]

  -- The laws that the theorems on transactions rely on hold of this engine.
  abbrev pub as_engine_laws : EngineLaws as_engine
  as_engine_laws = record {
    log = λ s. s.history;
    held = holders;
    log-write_atomic_batch =
        λ bytes ts s h. history-outcome_of bytes ts (write_atomic_batch bytes ts heights s.lsm) s h;
    log-next_timestamp = λ s. refl;
    log-unregister_snapshot = λ ts s. refl;
    log-check_conflict = λ key ts s. refl;
    held-write_atomic_batch = λ bytes t ts s.
        ap (λ r. count_or_zero (lookup ts r.counts))
          (snapshots-outcome_of bytes t (write_atomic_batch bytes t heights s.lsm) s);
    held-next_timestamp = λ ts s. refl;
    held-register_snapshot = λ t ts s. count-register_snapshot t ts s.snapshots;
    held-unregister_snapshot = λ t ts s. count-unregister_snapshot t ts s.snapshots;
    held-check_conflict = λ key t ts s. refl;
    held-get_with_ts = λ key t ts s. refl;
  }
