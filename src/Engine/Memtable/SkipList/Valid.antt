-- ===== src/Engine/Memtable/SkipList/Valid.antt =====
-- The invariant of the skip list, and what its searches return on a valid list.
use scoria_db.Base.{
  subst, ℕ, zero, suc, ◌+◌, ◌≤◌, ◌<◌, ◌≡◌, refl, sym, ap, ◌∙◌, inl, inr, Bool, true, false, List,
  [], ◌∷◌, arith, ltb, ◌==◌, if◌then◌else◌, ==_iff, Bool-cases, length, All,
}
use scoria_db.Mvcc.{MvccKey}
use scoria_db.Engine.Memtable.Arena.{Arena, node_at, frontier}
use scoria_db.Engine.Memtable.Chain.{Mem, Chain, last_of, before, after, Sorted, All-Mem}
use scoria_db.Engine.Memtable.Arena.Bounds.{IsArena}
use scoria_db.Engine.Memtable.SkipList.{
  SkipList, node_key_less, walk, find_from, find_prevs, find_greater_or_equal,
}
use scoria_db.Engine.Memtable.SkipList.Search.{
  links, keys, in_front, IsStart, walk-IsStart, last_of-IsStart,
}

abbrev pub live_count : Arena → List ℕ → ℕ
live_count a [] = 0
live_count a (i ∷ is) =
    let rest = live_count a is in if (node_at i a).deleted then rest else rest + 1

-- `levels` are the indices on each level, without the head.
pub record IsValid (s : SkipList) (levels : ℕ → List ℕ) : Type 0 where
  pub arena_valid : IsArena s.arena
  pub head_zero : s.head_idx ≡ 0
  pub height_positive : 0 < s.height
  pub linked : (l : ℕ) → Chain (links s.arena l) 0 (levels l)
  pub sorted : (l : ℕ) → Sorted node_key_less (keys s.arena) (levels l)
  pub nested : (l : ℕ) → All (λ i. Mem i (levels l)) (levels (suc l))
  pub empty : (l : ℕ) → s.height ≤ l → levels l ≡ []
  pub allocated : (l : ℕ) → All (λ i. i < frontier s.arena) (levels l)
  pub room : (l : ℕ) → length (levels l) < s.arena.total
  pub counted : s.length ≡ live_count s.arena (levels 0)

-- The last node in front of the key on a level; the head if there is none.
abbrev pub pred : MvccKey → Arena → List ℕ → ℕ
pred key a xs = last_of 0 (before (in_front key a) xs)

pub Chain-after :
    (t : ℕ → Bool) (f : ℕ → ℕ) (p : ℕ) (xs : List ℕ)
    → Chain f p xs
    → Chain f (last_of p (before t xs)) (after t xs)
Chain-after t f p [] c = c
Chain-after t f p (x ∷ xs) (fp, nz, c) = elim (Bool-cases (t x)) [
  | inl y ↦ rw y (Chain-after t f x xs c)
  | inr n ↦ rw n (fp, nz, c)
]

module _ (s : SkipList) (levels : ℕ → List ℕ) (v : IsValid s levels) (key : MvccKey) where
  -- A start on a level is one on the level below.
  descend :
      (l i : ℕ) → IsStart key s.arena 0 (levels (suc l)) i → IsStart key s.arena 0 (levels l) i
  descend l i (inl e) = inl e
  descend l i (inr (m, f)) =
      inr (All-Mem (λ j. Mem j (levels l)) i (levels (suc l)) (v.nested l) m, f)

  walk-pred :
      (l i : ℕ)
      → IsStart key s.arena 0 (levels l) i
      → walk s.arena.total l key i s.arena ≡ pred key s.arena (levels l)
  walk-pred l i st =
      walk-IsStart s.arena.total l key 0 i s.arena (levels l) (v.linked l) (v.sorted l) (v.room l)
        st

  next-IsStart : (l : ℕ) → IsStart key s.arena 0 (levels l) (pred key s.arena (levels l))
  next-IsStart l = last_of-IsStart key s.arena 0 (levels l)

  lower : (n l : ℕ) → n ≡ suc l → IsStart key s.arena 0 (levels l) (pred key s.arena (levels n))
  lower n l e = descend l (pred key s.arena (levels n)) (
      subst (λ k. IsStart key s.arena 0 (levels k) (pred key s.arena (levels n))) e
        (next-IsStart n))

  find_from-pred :
      (n i : ℕ)
      → ((l : ℕ) → n ≡ suc l → IsStart key s.arena 0 (levels l) i)
      → 0 < n
      → find_from n key i s.arena ≡ links s.arena 0 (pred key s.arena (levels 0))
  unfolding find_from
  find_from-pred zero i st h = absurd (omega (arith, h))
  find_from-pred (suc zero) i st h = rw (walk-pred 0 i (st 0 refl)) refl
  find_from-pred (suc (suc l)) i st h =
      let z : (suc l == 0) ≡ false = ground arith in
      rw (walk-pred (suc l) i (st (suc l) refl), z)
        (find_from-pred (suc l) (pred key s.arena (levels (suc l))) (lower (suc l)) (omega arith))

  -- The search of readers ends behind the last node in front of the key.
  pub find_greater_or_equal-pred :
      find_greater_or_equal key s ≡ links s.arena 0 (pred key s.arena (levels 0))
  unfolding find_greater_or_equal
  find_greater_or_equal-pred =
      find_from-pred s.height s.head_idx (λ l e. inl v.head_zero) v.height_positive

  find_prevs-below :
      (n i : ℕ) (prevs : ℕ → ℕ)
      → ((l : ℕ) → n ≡ suc l → IsStart key s.arena 0 (levels l) i)
      → (l : ℕ)
      → find_prevs n key i prevs s.arena l
        ≡ (if ltb l n then pred key s.arena (levels l) else prevs l)
  unfolding find_prevs
  find_prevs-below zero i prevs st l = ground arith
  find_prevs-below (suc n) i prevs st l =
      let here = pred key s.arena (levels n) in
      let prevs' : ℕ → ℕ = λ m. if m == n then here else prevs m in
      rw (walk-pred n i (st n refl)) (
        find_prevs-below n here prevs' (lower n) l ∙ elim (Bool-cases (l == n)) [
          | inl y ↦
              let e : l ≡ n = (==_iff l n).0 y in
              let past : ltb l n ≡ false = ground (arith, e) in
              let now : ltb l (suc n) ≡ true = ground (arith, e) in
              rw (past, now, y) (ap (λ k. pred key s.arena (levels k)) (sym e))
          | inr d ↦ let same : ltb l (suc n) ≡ ltb l n = ground (arith, d) in rw (same, d) refl
        ])

  -- The search of writers finds the last node in front of the key on every level.
  pub find_prevs-pred :
      (l : ℕ)
      → find_prevs s.height key s.head_idx (λ m. s.head_idx) s.arena l ≡ pred key s.arena (levels l)
  find_prevs-pred l =
      find_prevs-below s.height s.head_idx (λ m. s.head_idx) (λ m e. inl v.head_zero) l
      ∙ elim (Bool-cases (ltb l s.height)) [
        | inl y ↦ rw y refl
        | inr n ↦
            let none_here : levels l ≡ [] = v.empty l (ground (arith, n)) in
            rw (n, none_here) v.head_zero
      ]
