-- ===== src/Engine/Memtable/SkipList/Marked.antt =====
-- A node that becomes a tombstone: the list stays valid, and one version is marked.
use scoria_db.Base.{
  subst, ℕ, ◌+◌, ◌≡◌, refl, sym, ap, ◌∙◌, ◌≢◌, inl, inr, true, false, none, List, [], ◌∷◌, arith,
  ◌==◌, if◌then◌else◌, ==_iff, ==_refl, Bool-cases, All,
}
use scoria_db.Mvcc.{MvccKey}
use scoria_db.Engine.Memtable.Arena.{Arena, node_at, write}
use scoria_db.Engine.Memtable.Chain.{Mem, Sorted, All-Mem}
use scoria_db.Engine.Memtable.Chain.Members.{All-map, in_front_ne, Sorted-Distinct}
use scoria_db.Engine.Memtable.SkipList.{node_key_less, same_version}
use scoria_db.Engine.Memtable.SkipList.Order.{node_key_less_irrefl}
use scoria_db.Engine.Memtable.SkipList.Search.{links, keys}
use scoria_db.Engine.Memtable.SkipList.Valid.{live_count}
use scoria_db.Engine.Memtable.SkipList.Entries.{Entry, entries, entry_of}
use scoria_db.Engine.Memtable.SkipList.Version.{same_version_iff}

-- The version is a tombstone now.
unfoldable pub mark : MvccKey → List Entry → List Entry
mark key [] = []
mark key (e ∷ es) =
    (if same_version e.key key then record e { value = none; deleted = true } else e) ∷ mark key es

abbrev pub tombstone : ℕ → Arena → Arena
tombstone idx a = write idx (record (node_at idx a) { deleted = true }) a

mark-none :
    (key : MvccKey) (a : Arena) (xs : List ℕ)
    → All (λ i. keys a i ≢ key) xs
    → mark key (entries a xs) ≡ entries a xs
unfolding mark entry_of
mark-none key a [] h = refl
mark-none key a (x ∷ xs) (n, h) = elim (Bool-cases (same_version (keys a x) key)) [
  | inl y ↦ absurd (n ((same_version_iff (keys a x) key).0 y))
  | inr q ↦ rw (q, mark-none key a xs h) refl
]

module _ (a : Arena) (idx : ℕ) where
  tombstone-here : node_at idx (tombstone idx a) ≡ record (node_at idx a) { deleted = true }
  unfolding node_at
  tombstone-here = rw (==_refl idx) refl

  tombstone-other : (i : ℕ) → idx ≢ i → node_at i (tombstone idx a) ≡ node_at i a
  unfolding node_at
  tombstone-other i ne = let n : (i == idx) ≡ false = ground (arith, ne) in rw n refl

  pub tombstone-links : (l i : ℕ) → links (tombstone idx a) l i ≡ links a l i
  unfolding node_at
  tombstone-links l i = ground arith

  pub tombstone-keys : (i : ℕ) → keys (tombstone idx a) i ≡ keys a i
  unfolding node_at
  tombstone-keys i = elim (Bool-cases (i == idx)) [
    | inl y ↦ rw (y, (==_iff i idx).0 y) refl
    | inr n ↦ rw n refl
  ]

  untouched :
      (xs : List ℕ)
      → All (λ i. idx ≢ i) xs
      → (entries (tombstone idx a) xs ≡ entries a xs)
        × (live_count (tombstone idx a) xs ≡ live_count a xs)
  untouched [] h = (refl, refl)
  untouched (x ∷ xs) (n, h) =
      let (e, c) = untouched xs h in rw (tombstone-other x n, e, c) (refl, refl)

  pub tombstone-entries :
      (xs : List ℕ)
      → Sorted node_key_less (keys a) xs
      → Mem idx xs
      → (node_at idx a).deleted ≡ false
      → (entries (tombstone idx a) xs ≡ mark (keys a idx) (entries a xs))
        × (live_count (tombstone idx a) xs + 1 ≡ live_count a xs)
  unfolding mark entry_of
  tombstone-entries [] s m live = absurd m
  tombstone-entries (x ∷ xs) (h, s) (inl e) live =
      let apart : All (λ i. idx ≢ i) xs =
        subst (λ z. All (λ i. z ≢ i) xs) e
          (Sorted-Distinct node_key_less node_key_less_irrefl (keys a) (x ∷ xs) (h, s)).0 in
      let others : All (λ i. keys a i ≢ keys a idx) xs =
        All-map (λ i. node_key_less (keys a x) (keys a i) ≡ true) (λ i. keys a i ≢ keys a idx) xs
          (λ i l q.
            in_front_ne node_key_less node_key_less_irrefl (keys a) (keys a x) (keys a i) l
              (ap (keys a) e ∙ sym q))
          h in
      let same : same_version (keys a idx) (keys a idx) ≡ true =
        (same_version_iff (keys a idx) (keys a idx)).1 refl in
      let (rest, count) = untouched xs apart in
      rw (e, tombstone-here, same, rest, count, live, mark-none (keys a idx) a xs others)
        (refl, refl)
  tombstone-entries (x ∷ xs) (h, s) (inr m) live =
      let apart : idx ≢ x = λ e.
        (All-Mem (λ z. x ≢ z) idx xs
            (Sorted-Distinct node_key_less node_key_less_irrefl (keys a) (x ∷ xs) (h, s)).0 m)
          (sym e) in
      let other : same_version (keys a x) (keys a idx) ≡ false =
        elim (Bool-cases (same_version (keys a x) (keys a idx))) [
          | inl y ↦ absurd (
              in_front_ne node_key_less node_key_less_irrefl (keys a) (keys a x) (keys a idx)
                (All-Mem (λ z. node_key_less (keys a x) (keys a z) ≡ true) idx xs h m)
                ((same_version_iff (keys a x) (keys a idx)).0 y))
          | inr q ↦ q
        ] in
      let (rest, count) = tombstone-entries xs s m live in
      rw (tombstone-other x apart, other, rest) (refl, ground (arith, count))
