-- ===== src/Engine/Compaction/Runs.antt =====
-- The compaction of the versions of two keys.
use scoria_db.Base.{ℕ, ◌-◌, ◌≡◌, some, List, ltb, if◌then◌else◌, [], ◌∷◌, arith}
use scoria_db.Base.Map.{bytes_equal}
use scoria_db.Mvcc.{commit_ts, revert_timestamp}
use scoria_db.Engine.Compaction.{Kv, compact_loop}
use scoria_db.Engine.Compaction.Retained.{retained, compact_loop-retained, is_newest, is_wanted}

-- A version of the key at a commit timestamp.
abbrev kv_at : ℕ → ℕ → ℕ → Kv
kv_at key ts value = record {
  key = record { key = key ∷ []; timestamp = 18446744073709551615 - ts };
  value = value ∷ [];
}

abbrev kvs : List Kv
kvs = kv_at 1 9 0 ∷ kv_at 1 7 0 ∷ kv_at 1 3 0 ∷ kv_at 1 1 0 ∷ kv_at 2 8 0 ∷ []

-- Snapshots at 4 and 8 are active, and in front of the third read one at 2 is opened. The version of 7
-- is lost, which the snapshot at 8 sees, and that of 3, which is newer than the new snapshot.
abbrev min_at : ℕ → ℕ
min_at i = if ltb i 2 then 4 else 2

compact_loop-retained_example :
    compact_loop 6 min_at 0 kvs ≡ some (kv_at 1 9 0 ∷ kv_at 1 1 0 ∷ kv_at 2 8 0 ∷ [])
unfolding retained is_newest is_wanted bytes_equal commit_ts revert_timestamp
compact_loop-retained_example = compact_loop-retained 6 min_at kvs (omega arith)
