-- ===== src/Txn/Interface.antt =====
-- internal/txn/interface.go: the methods that transactions call on the engine. An engine is a state
-- and its methods on it; `E` are its errors.
use scoria_db.Base.{
  ℕ, ◌+◌, ◌-◌, ◌≡◌, Bool, Option, none, List, [], ◌∷◌, ◌++◌, ◌==◌, if◌then◌else◌, Result,
}
use scoria_db.Base.Bytes.{Bytes}

pub record Engine (S E : Type 0) : Type 0 where
  pub write_atomic_batch : Bytes → ℕ → S → Option E × S
  pub next_timestamp : S → ℕ × S
  pub register_snapshot : ℕ → S → S
  pub unregister_snapshot : ℕ → S → S
  pub check_conflict : Bytes → ℕ → S → Result E Bool × S
  pub get_with_ts : Bytes → ℕ → S → Result E (Option Bytes) × S

-- One holder of `held_ts`, asked for `ts`
abbrev pub one_at : ℕ → ℕ → ℕ
one_at held_ts ts = if held_ts == ts then 1 else 0

-- What transactions rely on. `log` are the batches that were written, with their timestamps, and
-- `held` counts the holders of a snapshot.
pub record EngineLaws {S E : Type 0} (engine : Engine S E) : Type 0 where
  pub log : S → List (Bytes × ℕ)
  pub held : ℕ → S → ℕ
  pub log-write_atomic_batch :
      (bytes : Bytes) (ts : ℕ) (s : S)
      → (engine.write_atomic_batch bytes ts s).0 ≡ none
      → log (engine.write_atomic_batch bytes ts s).1 ≡ log s ++ (bytes, ts) ∷ []
  pub log-next_timestamp : (s : S) → log (engine.next_timestamp s).1 ≡ log s
  pub log-unregister_snapshot : (ts : ℕ) (s : S) → log (engine.unregister_snapshot ts s) ≡ log s
  pub log-check_conflict :
      (key : Bytes) (ts : ℕ) (s : S) → log (engine.check_conflict key ts s).1 ≡ log s
  pub held-write_atomic_batch :
      (bytes : Bytes) (t ts : ℕ) (s : S)
      → held ts (engine.write_atomic_batch bytes t s).1 ≡ held ts s
  pub held-next_timestamp : (ts : ℕ) (s : S) → held ts (engine.next_timestamp s).1 ≡ held ts s
  pub held-register_snapshot :
      (t ts : ℕ) (s : S) → held ts (engine.register_snapshot t s) ≡ held ts s + one_at t ts
  pub held-unregister_snapshot :
      (t ts : ℕ) (s : S) → held ts (engine.unregister_snapshot t s) ≡ held ts s - one_at t ts
  pub held-check_conflict :
      (key : Bytes) (t ts : ℕ) (s : S) → held ts (engine.check_conflict key t s).1 ≡ held ts s
  pub held-get_with_ts :
      (key : Bytes) (t ts : ℕ) (s : S) → held ts (engine.get_with_ts key t s).1 ≡ held ts s
