-- ===== src/Engine/Memtable/SkipList/Delete.antt =====
-- The methods that make tombstones, against the sequence of versions.
use scoria_db.Base.{
  subst, ℕ, ◌-◌, ◌<◌, ◌≡◌, refl, sym, ap, ◌∙◌, ◌≢◌, ◌⊎◌, inl, inr, true, false, Option, none, some,
  List, [], ◌∷◌, arith, ◌==◌, if◌then◌else◌, ==_iff, Bool-cases, length,
}
use scoria_db.Mvcc.{MvccKey}
use scoria_db.Engine.Memtable.Arena.{Arena, node_at}
use scoria_db.Engine.Memtable.Chain.{Mem, Chain, Sorted, after, All-Mem, Sorted-cong, Chain-frame}
use scoria_db.Engine.Memtable.Chain.Members.{All-of, Mem-after, in_front_ne}
use scoria_db.Engine.Memtable.SkipList.{SkipList, node_key_less, same_version, find_exact}
use scoria_db.Engine.Memtable.SkipList.Order.{node_key_less_irrefl}
use scoria_db.Engine.Memtable.SkipList.Search.{links, keys, in_front}
use scoria_db.Engine.Memtable.SkipList.Valid.{
  IsValid, pred, Chain-after, find_greater_or_equal-pred,
}
use scoria_db.Engine.Memtable.SkipList.Entries.{Entry, entries, entry_of}
use scoria_db.Engine.Memtable.SkipList.Version.{
  same_version_iff, has_version, next_has, next_has-version,
}
use scoria_db.Engine.Memtable.SkipList.Marked.{
  mark, tombstone, tombstone-links, tombstone-keys, tombstone-entries,
}
use scoria_db.Engine.Memtable.SkipList.Put.{Holds}

unfoldable pub find_version : MvccKey → List Entry → Option Entry
find_version key [] = none
find_version key (e ∷ es) =
    let rest = find_version key es in if same_version e.key key then some e else rest

pub find_version-none :
    (key : MvccKey) (es : List Entry) → has_version key es ≡ false → find_version key es ≡ none
unfolding find_version has_version
find_version-none key [] h = refl
find_version-none key (e ∷ es) h =
    let off : same_version e.key key ≡ false = ground (arith, h) in
    rw off (find_version-none key es (ground (arith, h)))

pub find_version-Mem :
    (a : Arena) (idx : ℕ) (xs : List ℕ)
    → Sorted node_key_less (keys a) xs
    → Mem idx xs
    → find_version (keys a idx) (entries a xs) ≡ some (entry_of (node_at idx a))
unfolding find_version entry_of
find_version-Mem a idx [] s m = absurd m
find_version-Mem a idx (x ∷ xs) (h, s) (inl e) =
    let same : same_version (keys a idx) (keys a idx) ≡ true =
      (same_version_iff (keys a idx) (keys a idx)).1 refl in
    rw (e, same) refl
find_version-Mem a idx (x ∷ xs) (h, s) (inr m) =
    elim (Bool-cases (same_version (keys a x) (keys a idx))) [
      | inl y ↦ absurd (
          in_front_ne node_key_less node_key_less_irrefl (keys a) (keys a x) (keys a idx)
            (All-Mem (λ z. node_key_less (keys a x) (keys a z) ≡ true) idx xs h m)
            ((same_version_iff (keys a x) (keys a idx)).0 y))
      | inr q ↦ rw q (find_version-Mem a idx xs s m)
    ]

Chain-Mem : (f : ℕ → ℕ) (p : ℕ) (xs : List ℕ) → Chain f p xs → f p ≢ 0 → Mem (f p) xs
Chain-Mem f p [] c n = absurd (n c)
Chain-Mem f p (x ∷ xs) (fp, nz, c) n = inl (sym fp)

-- What findExact tells: that the version is not there, or its node.
abbrev pub IsExact : SkipList → List ℕ → MvccKey → ℕ → Type 0
IsExact s xs key idx =
    ((idx ≡ 0) × (has_version key (entries s.arena xs) ≡ false))
    ⊎ ((idx ≢ 0) × (Mem idx xs × (keys s.arena idx ≡ key)))

module _ (s : SkipList) (levels : ℕ → List ℕ) (v : IsValid s levels) where
  pub find_exact-IsExact :
      (key : MvccKey) → 0 < length key.key → IsExact s (levels 0) key (find_exact key s)
  unfolding find_exact
  find_exact-IsExact key long =
      let a = s.arena in
      let xs = levels 0 in
      let idx = links a 0 (pred key a xs) in
      let next : next_has key a idx ≡ has_version key (entries a xs) =
        next_has-version key a xs (v.sorted 0) (links a 0) (v.linked 0) in
      elim (Bool-cases (has_version key (entries a xs))) [
        | inr n ↦
            let miss : next_has key a idx ≡ false = next ∙ n in
            let zero_found : find_exact key s ≡ 0 =
              rw (find_exact, find_greater_or_equal-pred s levels v key) (ground (arith, miss)) in
            inl (zero_found, n)
        | inl y ↦
            let hit : next_has key a idx ≡ true = next ∙ y in
            let nonzero : (idx == 0) ≡ false = ground (arith, hit) in
            let same : same_version (keys a idx) key ≡ true = ground (arith, hit) in
            let here : keys a idx ≡ key = (same_version_iff (keys a idx) key).0 same in
            let size : length (keys a idx).key ≡ length key.key =
              ap (λ (k : MvccKey). length k.key) here in
            let some_key : (length (keys a idx).key == 0) ≡ false = ground (arith, size, long) in
            let found : find_exact key s ≡ idx =
              rw (find_exact, find_greater_or_equal-pred s levels v key, nonzero, some_key, same)
                refl in
            let nz : idx ≢ 0 =
              λ e. let z : (idx == 0) ≡ true = (==_iff idx 0).1 e in ground (arith, z, nonzero) in
            let at : Mem idx xs = Mem-after (in_front key a) idx xs (
              Chain-Mem (links a 0) (pred key a xs) (after (in_front key a) xs)
                (Chain-after (in_front key a) (links a 0) 0 xs (v.linked 0)) nz) in
            subst (IsExact s xs key) (sym found) (inr (nz, (at, here)))
      ]

  -- A live node of the list becomes a tombstone.
  pub tombstone-Holds :
      (idx last : ℕ)
      → Mem idx (levels 0)
      → (node_at idx s.arena).deleted ≡ false
      → Holds
          (record s { arena = tombstone idx s.arena; length = s.length - 1; last_active = last })
          (mark (keys s.arena idx) (entries s.arena (levels 0)))
  tombstone-Holds idx last m live =
      let a = s.arena in
      let b = tombstone idx a in
      let (marked, count) = tombstone-entries a idx (levels 0) (v.sorted 0) m live in
      (
        levels,
        (
          record {
            arena_valid = record {
              head_fits = v.arena_valid.head_fits;
              blocks_count = v.arena_valid.blocks_count;
              total_bounded = v.arena_valid.total_bounded;
            };
            head_zero = v.head_zero;
            height_positive = v.height_positive;
            linked = λ l.
                Chain-frame (links a l) (links b l) 0 (levels l) (tombstone-links a idx l 0)
                  (All-of (λ x. links b l x ≡ links a l x) (levels l)
                    (λ x q. tombstone-links a idx l x))
                  (v.linked l);
            sorted = λ l.
                Sorted-cong node_key_less (keys a) (keys b) (levels l)
                  (All-of (λ x. keys b x ≡ keys a x) (levels l) (λ x q. tombstone-keys a idx x))
                  (v.sorted l);
            nested = v.nested;
            empty = v.empty;
            allocated = v.allocated;
            room = v.room;
            counted = omega (arith, v.counted, count);
          },
          marked,
        ),
      )
