-- ===== src/Engine/Sstable/Reader/Choice.antt =====
-- The block that the binary search of Lookup chooses, against a walk along the index.
use scoria_db.Base.{
  ℕ, zero, suc, ◌≤◌, ◌≡◌, refl, sym, ◌∙◌, ◌≢◌, inl, inr, true, Option, none, some, List, [], ◌∷◌,
  arith, Ordering, length, Ordering-cases,
}
use scoria_db.Base.Bytes.{Bytes}
use scoria_db.Base.Search.{search, IsFirst, search-IsFirst}
use scoria_db.Keys.Order.{lex, lex-eq, lex_trans, lex-opposite}
use scoria_db.Engine.Sstable.Index.{IndexEntry}
use scoria_db.Engine.Sstable.Reader.{at_least, differs_at, block_at, choose_block}

-- The last block whose first key is not above the key that is looked for, else the first.
unfoldable pub last_not_above : Bytes → List IndexEntry → Option IndexEntry
last_not_above user_key [] = none
last_not_above user_key (e ∷ []) = some e
last_not_above user_key (e ∷ f ∷ es) = elim (lex f.key user_key) [
  | Ordering.gt ↦ some e
  | Ordering.lt ↦ last_not_above user_key (f ∷ es)
  | Ordering.eq ↦ last_not_above user_key (f ∷ es)
]

-- The keys of the index grow from each entry to the next.
abbrev pub IsAscending : List IndexEntry → Type 0
IsAscending [] = Unit
IsAscending (e ∷ []) = Unit
IsAscending (e ∷ f ∷ es) = (lex e.key f.key ≡ Ordering.lt) × IsAscending (f ∷ es)

module _ (user_key : Bytes) where
  at_least-next :
      (e f : IndexEntry) (es : List IndexEntry)
      → lex e.key f.key ≡ Ordering.lt
      → at_least user_key (e ∷ f ∷ es) 0 ≡ true
      → lex f.key user_key ≡ Ordering.gt
  unfolding at_least
  at_least-next e f es p h = ground (
    arith,
    p,
    h,
    lex-eq e.key user_key,
    lex-opposite f.key user_key,
    lex-opposite e.key user_key,
    lex_trans user_key e.key f.key,
  )

  above :
      (f : IndexEntry) (es : List IndexEntry)
      → lex f.key user_key ≡ Ordering.gt
      → at_least user_key (f ∷ es) 0 ≡ true
  unfolding at_least
  above f es h = ground (arith, h)

  -- The test holds from some index on.
  upward :
      (index : List IndexEntry)
      → IsAscending index
      → (i j : ℕ) → i ≤ j
      → at_least user_key index i ≡ true
      → at_least user_key index j ≡ true
  unfolding at_least
  upward [] a i j le h = refl
  upward (e ∷ []) a zero zero le h = h
  upward (e ∷ []) a i (suc j) le h = refl
  upward (e ∷ []) a (suc i) zero le h = absurd (omega (arith, le))
  upward (e ∷ f ∷ es) (p, a) zero zero le h = h
  upward (e ∷ f ∷ es) (p, a) zero (suc j) le h =
      upward (f ∷ es) a 0 j (omega arith) (above f es (at_least-next e f es p h))
  upward (e ∷ f ∷ es) (p, a) (suc i) zero le h = absurd (omega (arith, le))
  upward (e ∷ f ∷ es) (p, a) (suc i) (suc j) le h = upward (f ∷ es) a i j (omega (arith, le)) h

  -- The first index without the entry in front.
  IsFirst-tail :
      (e : IndexEntry) (index : List IndexEntry) (r : ℕ)
      → IsFirst (at_least user_key (e ∷ index)) (suc (length index)) (suc r)
      → IsFirst (at_least user_key index) (length index) r
  unfolding at_least
  IsFirst-tail e index r h = record {
    in_range = omega (arith, h.in_range);
    below = λ i s. h.below (suc i) (omega (arith, s));
    holds = λ s. h.holds (omega (arith, s));
  }

  block_at-shift :
      (e f : IndexEntry) (es : List IndexEntry) (r : ℕ)
      → block_at user_key (e ∷ f ∷ es) (suc (suc r)) ≡ block_at user_key (f ∷ es) (suc r)
  unfolding block_at differs_at
  block_at-shift e f es r = ground arith

  block_at-zero : (e : IndexEntry) (es : List IndexEntry) → block_at user_key (e ∷ es) 0 ≡ some e
  unfolding block_at
  block_at-zero e es = ground arith

  -- At the second entry the first is chosen, unless the second has the key itself.
  block_at-one :
      (e f : IndexEntry) (es : List IndexEntry)
      → block_at user_key (e ∷ f ∷ es) 1 ≡ (elim (lex f.key user_key) [
        | Ordering.eq ↦ some f
        | Ordering.lt ↦ some e
        | Ordering.gt ↦ some e
      ])
  unfolding block_at differs_at
  block_at-one e f es = ground arith

  second_key :
      (e f : IndexEntry) (es : List IndexEntry)
      → IsFirst (at_least user_key (e ∷ f ∷ es)) (suc (suc (length es))) 1
      → lex f.key user_key ≢ Ordering.lt
  unfolding at_least
  second_key e f es h q = ground (arith, q, h.holds (omega arith))

  later_key :
      (e f : IndexEntry) (es : List IndexEntry) (r : ℕ)
      → IsFirst (at_least user_key (e ∷ f ∷ es)) (suc (suc (length es))) (suc (suc r))
      → lex f.key user_key ≡ Ordering.lt
  unfolding at_least
  later_key e f es r h = ground (arith, h.below 1 (omega arith))

  block_at-last_not_above :
      (index : List IndexEntry) (r : ℕ)
      → IsAscending index
      → IsFirst (at_least user_key index) (length index) r
      → block_at user_key index r ≡ last_not_above user_key index
  unfolding block_at last_not_above
  block_at-last_not_above [] r a h = ground (arith, h.in_range)
  block_at-last_not_above (e ∷ []) r a h = ground (arith, h.in_range)
  block_at-last_not_above (e ∷ f ∷ es) zero (p, a) h =
      let over = at_least-next e f es p (h.holds (omega arith)) in
      block_at-zero e (f ∷ es) ∙ rw (over, last_not_above) refl
  block_at-last_not_above (e ∷ f ∷ es) (suc zero) (p, a) h =
      let rest = block_at-last_not_above (f ∷ es) zero a (IsFirst-tail e (f ∷ es) 0 h) in
      block_at-one e f es ∙ elim (Ordering-cases (lex f.key user_key)) [
        | inl lt ↦ absurd (second_key e f es h lt)
        | inr (inl eq) ↦ rw (eq, last_not_above) (sym (block_at-zero f es) ∙ rest)
        | inr (inr gt) ↦ rw (gt, last_not_above) refl
      ]
  block_at-last_not_above (e ∷ f ∷ es) (suc (suc r)) (p, a) h =
      let rest = block_at-last_not_above (f ∷ es) (suc r) a (IsFirst-tail e (f ∷ es) (suc r) h) in
      block_at-shift e f es r ∙ rw (later_key e f es r h, last_not_above) rest

  -- On an index of ascending keys the binary search chooses the last block whose first key is not
  -- above the key that is looked for, or the first block if there is none.
  pub choose_block-last_not_above :
      (index : List IndexEntry)
      → IsAscending index
      → choose_block user_key index ≡ last_not_above user_key index
  unfolding choose_block
  choose_block-last_not_above index a =
      block_at-last_not_above index (search (length index) (at_least user_key index)) a
        (search-IsFirst (at_least user_key index) (upward index a) (length index))
