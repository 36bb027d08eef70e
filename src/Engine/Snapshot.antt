-- ===== src/Engine/Snapshot.antt =====
-- internal/engine/snapshot.go: the registry of active snapshots. Every method runs under the
-- registry's lock, so the methods are taken one after the other.
pub mod Watermark
mod Runs
use scoria_db.Base.{
  ℕ, ◌+◌, ◌-◌, Bool, true, false, ◌||◌, Option, none, some, [], ◌∷◌, ltb, ◌==◌, if◌then◌else◌,
  length,
}
use scoria_db.Base.Map.{Map, nat_key, lookup, insert, delete}

pub record SnapshotRegistry : Type 0 where
  pub counts : Map ℕ ℕ
  pub min : ℕ

unfoldable pub new_snapshot_registry : SnapshotRegistry
new_snapshot_registry = record { counts = []; min = 0 }

-- `counts[ts]` of a missing key is 0.
abbrev pub count_or_zero : Option ℕ → ℕ
count_or_zero none = 0
count_or_zero (some count) = count

unfoldable pub register_snapshot : ℕ → SnapshotRegistry → SnapshotRegistry
register_snapshot ts r = record {
  counts = insert ts (count_or_zero (lookup ts r.counts) + 1) r.counts;
  min = if r.min == 0 || ltb ts r.min then ts else r.min;
}

-- The loop over the counts: `if first || ts < newMin { newMin = ts; first = false }`.
unfoldable pub min_loop : Map ℕ ℕ → ℕ → Bool → ℕ
min_loop [] new_min first = new_min
min_loop ((ts, count) ∷ counts) new_min first =
    let smaller = first || ltb ts new_min in
    min_loop counts (if smaller then ts else new_min) (if smaller then false else first)

unfoldable pub recompute_min_locked : SnapshotRegistry → SnapshotRegistry
unfolding min_loop
recompute_min_locked r = record r {
  min = if length r.counts == 0 then 0 else min_loop r.counts 0 true;
}

unfoldable pub remove_reference : ℕ → ℕ → Map ℕ ℕ → Map ℕ ℕ
remove_reference ts count counts =
    if ltb 1 count then insert ts (count - 1) counts else delete ts counts

unfoldable pub unregister_snapshot : ℕ → SnapshotRegistry → SnapshotRegistry
unfolding recompute_min_locked remove_reference
unregister_snapshot ts r = elim (lookup ts r.counts) [
  | none ↦ r
  | some count ↦ recompute_min_locked (record r { counts = remove_reference ts count r.counts })
]

-- Min
abbrev pub min_active : SnapshotRegistry → ℕ
min_active r = r.min
