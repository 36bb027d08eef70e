-- ===== src/Engine/Memtable/SkipList/Removal.antt =====
-- Delete and DeleteWithTS, against the sequence of versions.
use scoria_db.Base.{
  subst, ℕ, ◌+◌, ◌-◌, ◌<◌, ◌≡◌, refl, ap, inl, inr, Bool, true, false, none, some, List, arith,
  ◌==◌, if◌then◌else◌, Bool-cases, length, Any,
}
use scoria_db.Mvcc.{MvccKey}
use scoria_db.Engine.Memtable.Arena.{node_at}
use scoria_db.Engine.Memtable.Arena.Bounds.{HasRoom}
use scoria_db.Engine.Memtable.SkipList.{SkipList, mark_deleted, find_exact, delete, delete_with_ts}
use scoria_db.Engine.Memtable.SkipList.Search.{keys}
use scoria_db.Engine.Memtable.SkipList.Valid.{IsValid}
use scoria_db.Engine.Memtable.SkipList.Entries.{Entry, entries, entry_of, insert_entry}
use scoria_db.Engine.Memtable.SkipList.Version.{fresh-has_version}
use scoria_db.Engine.Memtable.SkipList.Marked.{mark, tombstone}
use scoria_db.Engine.Memtable.SkipList.Put.{Yields, Holds, FitsBlock, insert_node-Holds}
use scoria_db.Engine.Memtable.SkipList.Delete.{
  find_version, find_version-none, find_version-Mem, find_exact-IsExact, tombstone-Holds,
}

-- A version that is there is marked, unless it is a tombstone.
unfoldable pub removal : MvccKey → Entry → List Entry → Bool × List Entry
unfolding mark
removal key e es = if e.deleted then (false, es) else (true, mark key es)

-- What the deletion of an exact version does.
unfoldable pub deleted_version : MvccKey → List Entry → Bool × List Entry
unfolding find_version removal
deleted_version key es = elim (find_version key es) [
  | none ↦ (false, es)
  | some e ↦ removal key e es
]

-- The deletion at a timestamp adds a tombstone where the version is not there.
unfoldable pub deleted_at : MvccKey → List Entry → Bool × List Entry
unfolding find_version removal insert_entry
deleted_at key es = elim (find_version key es) [
  | none ↦ (true, insert_entry (record { key = key; value = none; deleted = true }) es)
  | some e ↦ removal key e es
]

mark_deleted-Holds :
    (s : SkipList) (levels : ℕ → List ℕ)
    → IsValid s levels
    → (idx : ℕ) → Any (λ x. x ≡ idx) (levels 0)
    → (s' : SkipList) × (mark_deleted idx s ≡ (
      (removal (keys s.arena idx) (entry_of (node_at idx s.arena)) (entries s.arena (levels 0))).0,
      s',
    ))
      × Holds s'
          (removal
            (keys s.arena idx)
            (entry_of (node_at idx s.arena))
            (entries s.arena (levels 0))).1
unfolding mark_deleted removal entry_of
mark_deleted-Holds s levels v idx m = elim (Bool-cases (node_at idx s.arena).deleted) [
  | inl y ↦ rw (mark_deleted, y) (s, refl, (levels, (v, refl)))
  | inr n ↦
      rw (mark_deleted, n)
        (
          record s {
            arena = tombstone idx s.arena;
            length = s.length - 1;
            last_active = if s.last_active == idx then 0 else s.last_active;
          },
          refl,
          tombstone-Holds s levels v idx (if s.last_active == idx then 0 else s.last_active) m n,
        )
]

module _ (s : SkipList) (levels : ℕ → List ℕ) (v : IsValid s levels) (idx : ℕ) (key : MvccKey)
    (m : Any (λ x. x ≡ idx) (levels 0)) (k : keys s.arena idx ≡ key) where
  found_version :
      find_version key (entries s.arena (levels 0)) ≡ some (entry_of (node_at idx s.arena))
  found_version =
      subst
        (λ q. find_version q (entries s.arena (levels 0)) ≡ some (entry_of (node_at idx s.arena))) k
        (find_version-Mem s.arena idx (levels 0) (v.sorted 0) m)

  mark_deleted_at :
      (s' : SkipList) × (mark_deleted idx s
        ≡ ((removal key (entry_of (node_at idx s.arena)) (entries s.arena (levels 0))).0, s'))
      × Holds s' (removal key (entry_of (node_at idx s.arena)) (entries s.arena (levels 0))).1
  mark_deleted_at =
      subst
        (λ q.
          (s' : SkipList) × (mark_deleted idx s
            ≡ ((removal q (entry_of (node_at idx s.arena)) (entries s.arena (levels 0))).0, s'))
          × Holds s' (removal q (entry_of (node_at idx s.arena)) (entries s.arena (levels 0))).1)
        k (mark_deleted-Holds s levels v idx m)

-- On a valid list, Delete of a key that is not empty returns true and turns the version into a
-- tombstone where it is live; it returns false and changes nothing where the version is not there or is
-- a tombstone. The list is valid again.
delete-Holds :
    (s : SkipList) (es : List Entry) (key : MvccKey)
    → Holds s es
    → 0 < length key.key
    → Yields (some (delete key s)) (deleted_version key es)
unfolding delete deleted_version
delete-Holds s es key (levels, (v, e)) long =
    rw (← e) (elim (find_exact-IsExact s levels v key long) [
      | inl (z, absent) ↦
          rw (delete, z, deleted_version, find_version-none key (entries s.arena (levels 0)) absent)
            (s, refl, (levels, (v, refl)))
      | inr (nz, (m, k)) ↦
          let idx = find_exact key s in
          let nonzero : (idx == 0) ≡ false = ground (arith, nz) in
          let version = found_version s levels v idx key m k in
          let (s', run, held) = mark_deleted_at s levels v idx key m k in
          rw (delete, nonzero, deleted_version, version) (s', ap some run, held)
    ])

-- On a valid list whose arena has two blocks of indices left for a node that fits into one,
-- DeleteWithTS of a key that is not empty, with any height above 0, succeeds, and the list is valid
-- again: a live version becomes a tombstone, a tombstone stays and gives false, and where the version is
-- not there a tombstone is added in its place.
pub delete_with_ts-Holds :
    (s : SkipList) (es : List Entry) (key : MvccKey) (height : ℕ)
    → Holds s es
    → 0 < length key.key
    → HasRoom s.arena
    → FitsBlock key none
    → 0 < height
    → Yields (delete_with_ts key height s) (deleted_at key es)
unfolding delete_with_ts deleted_at entry_of
delete_with_ts-Holds s es key height (levels, (v, e)) long room fits tall =
    rw (← e) (elim (find_exact-IsExact s levels v key long) [
      | inl (z, absent) ↦
          let fresh = fresh-has_version key s.arena (levels 0) absent in
          let (t, made, (same, held)) =
            insert_node-Holds s levels v key none true height tall room fits fresh in
          let held' : Holds t (
              insert_entry (record { key = key; value = none; deleted = true })
                (entries s.arena (levels 0))) =
            let count : s.length + 0 ≡ t.length = omega (arith, same) in
            subst
              (λ n.
                Holds (record t { length = n })
                  (insert_entry (record { key = key; value = none; deleted = true })
                    (entries s.arena (levels 0))))
              count held in
          rw
            (
              delete_with_ts,
              z,
              deleted_at,
              find_version-none key (entries s.arena (levels 0)) absent,
              made,
            )
            (t, refl, held')
      | inr (nz, (m, k)) ↦
          let idx = find_exact key s in
          let nonzero : (idx == 0) ≡ false = ground (arith, nz) in
          let version = found_version s levels v idx key m k in
          let (s', run, held) = mark_deleted_at s levels v idx key m k in
          rw (delete_with_ts, nonzero, deleted_at, version) (s', ap some run, held)
    ])
