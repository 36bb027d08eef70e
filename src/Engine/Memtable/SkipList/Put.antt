-- ===== src/Engine/Memtable/SkipList/Put.antt =====
-- The methods that add a node, against the sorted sequence of versions.
use scoria_db.Base.{
  ℕ, ◌+◌, ◌≤◌, ◌<◌, ◌≡◌, refl, sym, ap, ◌≢◌, Bool, true, Option, some, List, arith, ltb,
  if◌then◌else◌, All, not, false, ◌∙◌, Bool-cases, inl, inr, subst,
}
use scoria_db.Base.Bytes.{Bytes}
use scoria_db.Mvcc.{MvccKey}
use scoria_db.Engine.Memtable.Arena.{arena_block_size, node_at}
use scoria_db.Engine.Memtable.Arena.Bounds.{HasRoom, node_room}
use scoria_db.Engine.Memtable.Chain.Members.{All-map}
use scoria_db.Engine.Memtable.SkipList.{SkipList, insert_node, find_prevs, update_last_active, put}
use scoria_db.Engine.Memtable.SkipList.Search.{keys, links}
use scoria_db.Engine.Memtable.SkipList.Valid.{IsValid, pred, find_prevs-pred}
use scoria_db.Engine.Memtable.SkipList.Placed.{node_of, filled, new_node-Placed}
use scoria_db.Engine.Memtable.SkipList.Inserted.{
  grown_levels, linked_arena, new_apart, old_node, new_node_kept,
}
use scoria_db.Engine.Memtable.SkipList.Kept.{live_one, with_node, with_node-IsValid}
use scoria_db.Engine.Memtable.SkipList.Version.{
  has_version, next_has, next_has-version, fresh-has_version,
}
use scoria_db.Engine.Memtable.SkipList.Entries.{
  Entry, entries, entry_of, insert_entry, entries-insert_at,
}

update_last_active-only :
    (idx : ℕ) (s : SkipList)
    → update_last_active idx s ≡ record s { last_active = (update_last_active idx s).last_active }
unfolding update_last_active
update_last_active-only idx s = ground arith

-- The list holds the versions `es`, on levels that are valid.
abbrev pub Holds : SkipList → List Entry → Type 0
Holds s es = (levels : ℕ → List ℕ) × (IsValid s levels × (entries s.arena (levels 0) ≡ es))

-- A method returns the flag, and the list then holds the versions.
abbrev pub Yields : Option (Bool × SkipList) → Bool × List Entry → Type 0
Yields r p = (s' : SkipList) × (r ≡ some (p.0, s')) × Holds s' p.1

abbrev pub FitsBlock : MvccKey → Option Bytes → Type 0
FitsBlock key value = node_room key.key value ≤ arena_block_size

module _ (s : SkipList) (levels : ℕ → List ℕ) (v : IsValid s levels) (key : MvccKey)
    (value : Option Bytes) (deleted : Bool) (height : ℕ) (tall : 0 < height)
    (room : HasRoom s.arena) (fits : FitsBlock key value)
    (fresh : All (λ i. keys s.arena i ≢ key) (levels 0)) where
  -- The node is there, and the list is valid once its length counts it.
  pub insert_node-Holds :
      (s' : SkipList) × (insert_node key value deleted height
          (find_prevs s.height key s.head_idx (λ l. s.head_idx) s.arena)
          s
        ≡ some s')
      × ((s'.length ≡ s.length)
          × Holds
              (record s' { length = s.length + live_one deleted })
              (insert_entry
                (entry_of (node_of key value deleted height))
                (entries s.arena (levels 0))))
  unfolding insert_node
  insert_node-Holds =
      let prevs = find_prevs s.height key s.head_idx (λ l. s.head_idx) s.arena in
      let found : (l : ℕ) → prevs l ≡ pred key s.arena (levels l) =
        find_prevs-pred s levels v key in
      let (new, a, made, placed) =
        new_node-Placed key value deleted height s.arena v.arena_valid room fits in
      let b = filled key deleted new a in
      let a' = linked_arena s levels v key value deleted height new b placed fresh prevs found in
      let x : SkipList = record s {
        arena = a';
        height = if ltb s.height height then height else s.height;
      } in
      let last = (update_last_active new x).last_active in
      let on : ltb 0 height ≡ true = ground (arith, tall) in
      let whole : entries a' (grown_levels key new height s levels 0)
          ≡ insert_entry (entry_of (node_of key value deleted height))
              (entries s.arena (levels 0)) =
        rw on (
          entries-insert_at s.arena a' (node_of key value deleted height) new (levels 0)
            (new_node_kept s levels v key value deleted height new b placed fresh prevs found)
            (All-map (λ i. new ≢ i) _ (levels 0)
              (λ i ne.
                old_node s levels v key value deleted height new b placed fresh prevs found i
                  (λ e. ne (sym e)))
              (new_apart s levels v key value deleted height new b placed fresh prevs found 0))) in
      (
        with_node height a' s.length last s,
        rw (insert_node, made, placed.named) (ap some (update_last_active-only new x)),
        (
          refl,
          (
            grown_levels key new height s levels,
            (
              with_node-IsValid s levels v key value deleted height new b placed fresh prevs found
                  tall last,
              whole,
            ),
          ),
        ),
      )

-- On a valid list that holds the versions `es`, whose arena has two blocks of indices left for a node
-- that fits into one, Put succeeds with any height above 0, and the list is valid again. Where the
-- version is in `es`, it returns false and the list still holds `es`; otherwise it returns true, and the
-- list holds `es` with the live version in front of the first that is not in front of it.
pub put-Holds :
    (s : SkipList) (es : List Entry) (key : MvccKey) (value : Option Bytes) (height : ℕ)
    → Holds s es
    → HasRoom s.arena
    → FitsBlock key value
    → 0 < height
    → Yields (put key value height s) (
      not (has_version key es),
      if has_version key es
          then es
          else insert_entry (record { key = key; value = value; deleted = false }) es,
    )
unfolding put entry_of
put-Holds s es key value height (levels, (v, e)) room fits tall =
    let prevs = find_prevs s.height key s.head_idx (λ l. s.head_idx) s.arena in
    let next : next_has key s.arena ((node_at (prevs 0) s.arena).next 0) ≡ has_version key es =
      ap (λ p. next_has key s.arena (links s.arena 0 p)) (find_prevs-pred s levels v key 0)
      ∙ next_has-version key s.arena (levels 0) (v.sorted 0) (links s.arena 0) (v.linked 0)
      ∙ ap (has_version key) e in
    elim (Bool-cases (has_version key es)) [
      | inl y ↦ rw (put, next, y) (s, refl, (levels, (v, e)))
      | inr n ↦
          let fresh = fresh-has_version key s.arena (levels 0) (ap (has_version key) e ∙ n) in
          let (t, made, (same, held)) =
            insert_node-Holds s levels v key value false height tall room fits fresh in
          let entry : Entry = record { key = key; value = value; deleted = false } in
          let counted : Holds (record t { length = t.length + 1 })
              (insert_entry entry (entries s.arena (levels 0))) =
            subst
              (λ k.
                Holds (record t { length = k + 1 })
                  (insert_entry entry (entries s.arena (levels 0))))
              (sym same) held in
          let held' : Holds (record t { length = t.length + 1 }) (insert_entry entry es) =
            subst (λ xs. Holds (record t { length = t.length + 1 }) (insert_entry entry xs)) e
              counted in
          rw (put, next, n, made) (record t { length = t.length + 1 }, refl, held')
    ]
