-- ===== src/Engine/Snapshot/Runs.antt =====
-- The registry at a concrete history.
use scoria_db.Base.{ℕ, ◌≤◌, ◌<◌, ◌≡◌, refl, ◌≢◌, List, [], ◌∷◌, arith}
use scoria_db.Base.Map.{lookup, insert, delete}
use scoria_db.Engine.Snapshot.{new_snapshot_registry, register_snapshot, unregister_snapshot}
use scoria_db.Engine.Snapshot.Watermark.{Event, registers, unregisters, run, holders, watermark}

-- Snapshots 5, 3 and 3 are opened; one of 3 is closed, then an unknown one.
abbrev history : List Event
history = unregisters 9 ∷ unregisters 3 ∷ registers 3 ∷ registers 3 ∷ registers 5 ∷ []

still_three : (run history).min ≡ 3
unfolding run new_snapshot_registry register_snapshot unregister_snapshot lookup insert delete
still_three = refl

watermark_example :
    ((ts : ℕ) → 0 < holders ts history → ((run history).min ≤ ts) × (0 < (run history).min))
    × ((run history).min ≢ 0 → 0 < holders (run history).min history)
watermark_example = watermark history (omega arith)
