-- ===== src/Engine/Lsm/Conflicts.antt =====
-- CheckConflict
use scoria_db.Base.{ℕ, Bool, true, false, none, some, ltb, if◌then◌else◌, Result, ok, err}
use scoria_db.Base.Bytes.{Bytes}
use scoria_db.Engine.Cache.{get_last_commit_cache, update_last_commit_cache}
use scoria_db.Engine.Lsm.{ValueStores, LsmEngine, EngineError}
use scoria_db.Engine.Lsm.Reads.{get_latest_info}

module _ {V : Type 0} (stores : ValueStores V) where
  unfoldable pub check_conflict : Bytes → ℕ → LsmEngine V → Result EngineError Bool × LsmEngine V
  unfolding get_last_commit_cache get_latest_info update_last_commit_cache
  check_conflict key start_ts e =
      let (hit, cache) = get_last_commit_cache key e.cache in
      let e' = record e { cache = cache } in
      elim hit [
        | some last_ts ↦ (ok (ltb start_ts last_ts), e')
        | none ↦ elim (get_latest_info stores key e') [
          | err failure ↦ (err failure, e')
          | ok (value, last_ts, found) ↦
              let noted = record e' { cache = update_last_commit_cache key last_ts cache } in
              if ltb start_ts last_ts
              then (ok true, noted)
              else if ltb 0 last_ts
              then (ok false, noted)
              else (ok false, e')
        ]
      ]
