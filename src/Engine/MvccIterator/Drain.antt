-- ===== src/Engine/MvccIterator/Drain.antt =====
-- What a caller's loop over Next collects.
use scoria_db.Base.{
  choose_else, subst, ℕ, zero, suc, ◌+◌, ◌<◌, ◌≡◌, refl, sym, ap, ◌∙◌, inl, inr, Bool, true, false,
  Option, none, some, List, [], ◌∷◌, arith, Bool-cases, Option-cases, length, All,
}
use scoria_db.Base.Bytes.{Bytes}
use scoria_db.Engine.MvccIterator.{
  Version, Inner, MvccIterator, new_mvcc_iterator, advance, inner_next, next, drain,
}
use scoria_db.Engine.MvccIterator.Visible.{visible, IsProper}
use scoria_db.Engine.MvccIterator.Rounds.{left_of, Shows, left_unpeeked, next_loop-Shows}

length-left_of :
    (inner : Inner) (k x : Option Bytes) (e p : Bool)
    → length (left_of (record { inner = inner; key = k; value = x; ended = e; peeked = p }))
      < length inner.ahead + 2
unfolding advance inner_next
length-left_of inner k x e true = elim (Option-cases inner.current) [
  | inl n ↦ rw n (omega arith)
  | inr (w, y) ↦ rw y (omega arith)
]
length-left_of inner k x e false = unpeeked inner.ahead
  where
    unpeeked :
        (vs : List Version)
        → length (elim (inner_next vs) [ none ↦ [] | some (v, ahead) ↦ v ∷ ahead ]) < length vs + 2
    unpeeked [] = omega arith
    unpeeked (v ∷ vs) = omega arith

next-Shows :
    (it : MvccIterator)
    → ((it.ended ≡ true) → left_of it ≡ [])
    → All IsProper (left_of it)
    → (o : MvccIterator × Bool) × (next it ≡ some o) × Shows (left_of it) o
unfolding next visible
next-Shows it d h = elim (Bool-cases it.ended) [
  | inl y ↦ ((it, false), rw y refl, ap visible (d y))
  | inr n ↦
      let (o, run, s) =
        next_loop-Shows (length it.inner.ahead + 2) it
          (length-left_of it.inner it.key it.value it.ended it.peeked) h in
      (o, choose_else it.ended _ _ n ∙ run, s)
]

drain-Shows :
    (rounds : ℕ) (it : MvccIterator) (o : MvccIterator × Bool)
    → ((it' : MvccIterator) → o ≡ (it', true) → drain rounds it' ≡ some (visible (left_of it')))
    → next it ≡ some o
    → Shows (left_of it) o
    → drain (suc rounds) it ≡ some (visible (left_of it))
unfolding drain
drain-Shows rounds it (it', false) ih run s = rw (run, drain) (ap some (sym s))
drain-Shows rounds it (it', true) ih run (a, b, c, e) =
    rw (run, drain, ih it' refl) (ap some (sym a))

drain-left_of :
    (rounds : ℕ) (it : MvccIterator)
    → length (left_of it) < rounds
    → ((it.ended ≡ true) → left_of it ≡ [])
    → All IsProper (left_of it)
    → drain rounds it ≡ some (visible (left_of it))
drain-left_of zero it l d h = absurd (omega (arith, l))
drain-left_of (suc rounds) it l d h =
    let (o, run, s) = next-Shows it d h in
    drain-Shows rounds it o
      (λ it' e.
        let (a, b, c, f) = subst (Shows (left_of it)) e s in
        drain-left_of rounds it' (omega (arith, l, b)) f c)
      run s

-- A caller's loop over a new iterator, with a round for each version and one for the end, returns,
-- and it collects exactly the pairs that are visible: of each run of versions of one key, as the
-- inner iterator yields them, the last version alone, and no pair where that one is a tombstone or
-- has no value. The keys are nil or not empty.
pub drain-visible :
    (versions : List Version) (rounds : ℕ)
    → length versions < rounds
    → All IsProper versions
    → drain rounds (new_mvcc_iterator versions) ≡ some (visible versions)
drain-visible versions rounds l h =
    let it = new_mvcc_iterator versions in
    let g = left_unpeeked it none versions in
    drain-left_of rounds it (rw g l) (λ e. ground (arith, e)) (rw g h)
    ∙ ap (λ vs. some (visible vs)) g
