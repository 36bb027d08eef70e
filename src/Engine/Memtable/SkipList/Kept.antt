-- ===== src/Engine/Memtable/SkipList/Kept.antt =====
-- A skip list is valid again after a new node has been linked in.
use scoria_db.Base.{
  subst, ℕ, suc, ◌+◌, ◌≤◌, ◌<◌, ◌≡◌, refl, sym, ◌≢◌, inl, inr, Bool, true, false, Option, List, [],
  ◌∷◌, arith, ltb, if◌then◌else◌, Bool-cases, length, All,
}
use scoria_db.Base.Bytes.{Bytes}
use scoria_db.Mvcc.{MvccKey}
use scoria_db.Engine.Memtable.Arena.{Arena, node_at, frontier}
use scoria_db.Engine.Memtable.Chain.{Mem, insert_at, All-insert_at}
use scoria_db.Engine.Memtable.Chain.Members.{
  All-map, Mem-insert_at, Mem-insert_at_new, length-insert_at,
}
use scoria_db.Engine.Memtable.SkipList.{SkipList}
use scoria_db.Engine.Memtable.SkipList.Search.{keys, in_front}
use scoria_db.Engine.Memtable.SkipList.Valid.{IsValid, live_count, pred}
use scoria_db.Engine.Memtable.SkipList.Linked.{link_levels-bounds}
use scoria_db.Engine.Memtable.SkipList.Placed.{Placed, node_of}
use scoria_db.Engine.Memtable.SkipList.Inserted.{
  grown_levels, linked_arena, linked_new, Sorted-new, new_apart, old_node, new_node_kept,
}

pub live_count_cong :
    (a b : Arena) (xs : List ℕ)
    → All (λ i. (node_at i b).deleted ≡ (node_at i a).deleted) xs
    → live_count b xs ≡ live_count a xs
live_count_cong a b [] h = refl
live_count_cong a b (x ∷ xs) (e, h) = rw (e, live_count_cong a b xs h) refl

abbrev pub live_one : Bool → ℕ
live_one deleted = if deleted then 0 else 1

live_count-insert_at :
    (a : Arena) (t : ℕ → Bool) (new : ℕ) (xs : List ℕ)
    → live_count a (insert_at t new xs) ≡ live_count a xs + live_one (node_at new a).deleted
live_count-insert_at a t new [] = ground arith
live_count-insert_at a t new (x ∷ xs) = elim (Bool-cases (t x)) [
  | inl y ↦ rw y (ground (arith, live_count-insert_at a t new xs))
  | inr n ↦ rw n (ground arith)
]

-- The list with the new node, once its length is set.
abbrev pub with_node : ℕ → Arena → ℕ → ℕ → SkipList → SkipList
with_node height a length last s = record s {
  arena = a;
  height = if ltb s.height height then height else s.height;
  length = length;
  last_active = last;
}

module _ (s : SkipList) (levels : ℕ → List ℕ) (v : IsValid s levels) (key : MvccKey)
    (value : Option Bytes) (deleted : Bool) (height new : ℕ) (a : Arena)
    (placed : Placed s.arena new (node_of key value deleted height) a)
    (fresh : All (λ i. keys s.arena i ≢ key) (levels 0)) (prevs : ℕ → ℕ)
    (found : (l : ℕ) → prevs l ≡ pred key s.arena (levels l)) (tall : 0 < height) where
  abbrev a' : Arena
  a' = linked_arena s levels v key value deleted height new a placed fresh prevs found

  abbrev levels' : ℕ → List ℕ
  levels' = grown_levels key new height s levels

  nested_new : (l : ℕ) → All (λ i. Mem i (levels' l)) (levels' (suc l))
  nested_new l =
      let t = in_front key s.arena in
      let deep : ltb l height ≡ true → All (λ i. Mem i (levels' l)) (levels (suc l)) = λ y. rw y (
        All-map (λ i. Mem i (levels l)) (λ i. Mem i (insert_at t new (levels l))) (levels (suc l))
          (λ i. Mem-insert_at t new i (levels l)) (v.nested l)) in
      let flat : ltb l height ≡ false → All (λ i. Mem i (levels' l)) (levels (suc l)) =
        λ n. rw n (v.nested l) in
      let both : All (λ i. Mem i (levels' l)) (levels (suc l)) = elim (Bool-cases (ltb l height)) [
        | inl y ↦ deep y
        | inr n ↦ flat n
      ] in
      elim (Bool-cases (ltb (suc l) height)) [
        | inl y ↦
            let below : ltb l height ≡ true = ground (arith, y) in
            let here : Mem new (levels' l) = rw below (Mem-insert_at_new t new (levels l)) in
            let whole : All (λ i. Mem i (levels' l)) (insert_at t new (levels (suc l))) =
              All-insert_at (λ i. Mem i (levels' l)) t new (levels (suc l)) here both in
            let same : levels' (suc l) ≡ insert_at t new (levels (suc l)) = rw y refl in
            subst (All (λ i. Mem i (levels' l))) (sym same) whole
        | inr n ↦
            let same : levels' (suc l) ≡ levels (suc l) = rw n refl in
            subst (All (λ i. Mem i (levels' l))) (sym same) both
      ]

  empty_new : (l : ℕ) → (if ltb s.height height then height else s.height) ≤ l → levels' l ≡ []
  empty_new l h =
      let low : s.height ≤ l = ground (arith, h) in
      let off : ltb l height ≡ false = ground (arith, h) in rw off (v.empty l low)

  same_frontier : frontier a' ≡ frontier a
  same_frontier = (link_levels-bounds height new prevs a).0

  same_total : a'.total ≡ a.total
  same_total = (link_levels-bounds height new prevs a).1.0

  allocated_new : (l : ℕ) → All (λ i. i < frontier a') (levels' l)
  allocated_new l =
      let old : All (λ i. i < frontier a') (levels l) =
        All-map (λ i. i < frontier s.arena) (λ i. i < frontier a') (levels l)
          (λ i h. omega (arith, h, same_frontier, placed.above, placed.inside)) (v.allocated l) in
      elim (Bool-cases (ltb l height)) [
        | inl y ↦ rw y (
            All-insert_at (λ i. i < frontier a') (in_front key s.arena) new (levels l)
              (omega (arith, same_frontier, placed.inside)) old)
        | inr n ↦ rw n old
      ]

  room_new : (l : ℕ) → length (levels' l) < a'.total
  room_new l = elim (Bool-cases (ltb l height)) [
    | inl y ↦
        rw (y, length-insert_at (in_front key s.arena) new (levels l))
          (omega (arith, v.room l, same_total, placed.taken))
    | inr n ↦ rw n (omega (arith, v.room l, same_total, placed.taken))
  ]

  counted_new : live_count a' (levels' 0) ≡ s.length + live_one deleted
  counted_new =
      let on : ltb 0 height ≡ true = ground (arith, tall) in
      let mark : (node_at new a').deleted ≡ deleted =
        (new_node_kept s levels v key value deleted height new a placed fresh prevs found).1.1.1 in
      let old : live_count a' (levels 0) ≡ live_count s.arena (levels 0) =
        live_count_cong s.arena a' (levels 0) (
          All-map (λ x. new ≢ x) (λ i. (node_at i a').deleted ≡ (node_at i s.arena).deleted)
            (levels 0)
            (λ i ne.
              (old_node s levels v key value deleted height new a placed fresh prevs found i
                (λ e. ne (sym e))).1.1.1)
            (new_apart s levels v key value deleted height new a placed fresh prevs found 0)) in
      rw (on, live_count-insert_at a' (in_front key s.arena) new (levels 0), mark, old, v.counted)
        refl

  pub with_node-IsValid :
      (last : ℕ) → IsValid (with_node height a' (s.length + live_one deleted) last s) levels'
  with_node-IsValid last = record {
    arena_valid = (link_levels-bounds height new prevs a).1.1 placed.valid;
    head_zero = v.head_zero;
    height_positive = ground (arith, v.height_positive);
    linked = linked_new s levels v key value deleted height new a placed fresh prevs found;
    sorted = Sorted-new s levels v key value deleted height new a placed fresh prevs found;
    nested = nested_new;
    empty = empty_new;
    allocated = allocated_new;
    room = room_new;
    counted = sym counted_new;
  }
