-- ===== src/Engine/Memtable/Scan/Live.antt =====
-- What the walks along a valid skip list find.
use scoria_db.Base.{
  ℕ, zero, suc, ◌≤◌, ◌<◌, ◌≡◌, refl, ap, ◌∙◌, inl, inr, Bool, true, false, Option, none, some, List,
  [], ◌∷◌, arith, ◌==◌, if◌then◌else◌, Bool-cases, length,
}
use scoria_db.Base.Bytes.{Bytes}
use scoria_db.Mvcc.{MvccKey}
use scoria_db.Engine.Memtable.Arena.{Arena, node_at}
use scoria_db.Engine.Memtable.Chain.{Chain}
use scoria_db.Engine.Memtable.SkipList.{SkipList, key_of, value_of}
use scoria_db.Engine.Memtable.SkipList.Search.{links}
use scoria_db.Engine.Memtable.SkipList.Entries.{Entry, entries, entry_of}
use scoria_db.Engine.Memtable.SkipList.Put.{Holds}
use scoria_db.Engine.Memtable.Scan.{
  SkipListIterator, new_iterator, next_loop, next, iterate, iterator_key, iterator_value,
}

-- The versions that are not tombstones, in order.
unfoldable pub live_entries : List Entry → List (MvccKey × Option Bytes)
live_entries [] = []
live_entries (e ∷ es) =
    let rest = live_entries es in if e.deleted then rest else (e.key, e.value) ∷ rest

-- Where a step from an index ends.
abbrev landing : Arena → ℕ → List ℕ → Bool × SkipListIterator
landing a p [] = (false, record { current = p; done = true })
landing a p (x ∷ xs) =
    let rest = landing a x xs in
    if (node_at x a).deleted then rest else (true, record { current = x; done = false })

next_loop-landing :
    (fuel p : ℕ) (a : Arena) (xs : List ℕ)
    → Chain (links a 0) p xs
    → length xs < fuel
    → next_loop fuel p a ≡ some (landing a p xs)
unfolding next_loop
next_loop-landing zero p a xs c l = absurd (omega (arith, l))
next_loop-landing (suc fuel) p a [] c l = rw c refl
next_loop-landing (suc fuel) p a (x ∷ xs) (fp, nz, c) l =
    let nonzero : (x == 0) ≡ false = ground (arith, nz) in
    elim (Bool-cases (node_at x a).deleted) [
      | inl y ↦ rw (fp, nonzero, y) (next_loop-landing fuel x a xs c (omega (arith, l)))
      | inr n ↦ rw (fp, nonzero, n) refl
    ]

module _ (s : SkipList) where
  abbrev prepend :
      MvccKey × Option Bytes
      → Option (List (MvccKey × Option Bytes))
      → Option (List (MvccKey × Option Bytes))
  prepend pair r = elim r [ none ↦ none | some rest ↦ some (pair ∷ rest) ]

  -- What the loop does with the outcome of a step.
  abbrev collect : ℕ → Option (Bool × SkipListIterator) → Option (List (MvccKey × Option Bytes))
  collect fuel r = elim r [
    | none ↦ none
    | some (false, it) ↦ some []
    | some (true, it) ↦ prepend (iterator_key s it, iterator_value s it) (iterate fuel s it)
  ]

  iterate-collect :
      (fuel p : ℕ) (xs : List ℕ)
      → Chain (links s.arena 0) p xs
      → length xs < suc s.arena.total
      → iterate (suc fuel) s (record { current = p; done = false })
        ≡ collect fuel (some (landing s.arena p xs))
  unfolding iterate next
  iterate-collect fuel p xs c l =
      ap (collect fuel) (next_loop-landing (suc s.arena.total) p s.arena xs c l)

  collect-live :
      (fuel p : ℕ) (xs : List ℕ)
      → Chain (links s.arena 0) p xs
      → length xs < suc s.arena.total
      → length xs ≤ fuel
      → collect fuel (some (landing s.arena p xs)) ≡ some (live_entries (entries s.arena xs))
  unfolding live_entries entry_of
  collect-live fuel p [] c l h = refl
  collect-live zero p (x ∷ xs) c l h = absurd (omega (arith, h))
  collect-live (suc fuel) p (x ∷ xs) (fp, nz, c) l h =
      elim (Bool-cases (node_at x s.arena).deleted) [
        | inl y ↦ rw (y) (collect-live (suc fuel) x xs c (omega (arith, l)) (omega (arith, h)))
        | inr n ↦
            let later =
              iterate-collect fuel x xs c (omega (arith, l))
              ∙ collect-live fuel x xs c (omega (arith, l)) (omega (arith, h)) in
            let here : MvccKey × Option Bytes =
              (key_of (node_at x s.arena), (node_at x s.arena).value) in
            rw (n, value_of, n) (ap (prepend here) later)
      ]

-- On a valid list, the loop over a new iterator ends within as many rounds as the arena has bytes and
-- one, each call of Next too, and it takes the versions that are not tombstones, in order.
pub iterate-live_entries :
    (s : SkipList) (es : List Entry)
    → Holds s es
    → iterate (suc s.arena.total) s (new_iterator s) ≡ some (live_entries es)
iterate-live_entries s es (levels, (v, e)) =
    ap (λ i. iterate (suc s.arena.total) s (record { current = i; done = false })) v.head_zero
    ∙ iterate-collect s s.arena.total 0 (levels 0) (v.linked 0) (omega (arith, v.room 0))
    ∙ collect-live s s.arena.total 0 (levels 0) (v.linked 0) (omega (arith, v.room 0))
        (omega (arith, v.room 0))
    ∙ ap (λ es. some (live_entries es)) e
