-- ===== src/Engine/MvccIterator/Rounds.antt =====
-- One round of Next: what it shows, and which versions it leaves.
use scoria_db.Base.{
  choose_none, choose_some, subst, ℕ, zero, suc, ◌≤◌, ◌<◌, ◌≡◌, refl, sym, ap, ◌∙◌, ◌≢◌, inl, inr,
  Bool, true, false, Option, none, some, List, [], ◌∷◌, arith, Option-cases, length, All,
}
use scoria_db.Base.Bytes.{Bytes}
use scoria_db.Engine.MvccIterator.{
  Version, Inner, MvccIterator, content, scan_versions, shown, advance, inner_next, empty_scan,
  after_scan, next_loop,
}
use scoria_db.Engine.MvccIterator.Visible.{
  visible, IsProper, left_over, scan-visible, visible-nil_key,
}

-- The versions that the iterator has still to look at.
abbrev pub left_of : MvccIterator → List Version
left_of it = elim (advance it) [ none ↦ [] | some (v, ahead) ↦ v ∷ ahead ]

left_of-parts :
    (it : MvccIterator) (c : Option Version) (ahead : List Version) (ended : Bool)
    → let inner : Inner = record { current = c; ahead = ahead } in
      left_of (after_scan it inner ended) ≡ left_over (inner, ended)
unfolding advance inner_next
left_of-parts it c [] true = refl
left_of-parts it c (v ∷ ahead) true = refl
left_of-parts it none ahead false = refl
left_of-parts it (some w) ahead false = refl

left_of-after_scan :
    (it : MvccIterator) (inner : Inner) (ended : Bool)
    → left_of (after_scan it inner ended) ≡ left_over (inner, ended)
left_of-after_scan it inner ended = left_of-parts it inner.current inner.ahead ended

-- What a round of Next promises, of the versions that were left before it.
abbrev pub Shows : List Version → MvccIterator × Bool → Type 0
Shows versions (it, false) = visible versions ≡ []
Shows versions (it, true) =
    (visible versions ≡ (content it.key, content it.value) ∷ visible (left_of it))
    × (length (left_of it) < length versions)
    × All IsProper (left_of it)
    × ((it.ended ≡ true) → left_of it ≡ [])

pub left_unpeeked :
    (it : MvccIterator) (c : Option Version) (ahead : List Version)
    → left_of (record it { inner = record { current = c; ahead = ahead }; peeked = false }) ≡ ahead
unfolding advance inner_next
left_unpeeked it c [] = refl
left_unpeeked it c (v ∷ ahead) = refl

next_loop-exhausted :
    (fuel : ℕ) (it : MvccIterator)
    → advance it ≡ none
    → next_loop (suc fuel) it ≡ some (record it { ended = true; peeked = false }, false)
unfolding next_loop
next_loop-exhausted fuel it e = choose_none (advance it) _ _ e

next_loop-nil_key :
    (fuel : ℕ) (it : MvccIterator) (v : Version) (ahead : List Version)
    → advance it ≡ some (v, ahead)
    → v.key ≡ none
    → next_loop (suc fuel) it
      ≡ next_loop fuel
          (record it { inner = record { current = some v; ahead = ahead }; peeked = false })
unfolding next_loop
next_loop-nil_key fuel it v ahead e k =
    choose_some (advance it) _ _ (v, ahead) e ∙ choose_none v.key _ _ k

next_loop-hidden :
    (fuel : ℕ) (it : MvccIterator) (v : Version) (ahead : List Version) (k : Bytes)
    → advance it ≡ some (v, ahead)
    → v.key ≡ some k
    → let r = scan_versions v v ahead empty_scan in
      shown v r.0 ≡ none → next_loop (suc fuel) it ≡ next_loop fuel (after_scan it r.1 r.2)
unfolding next_loop
next_loop-hidden fuel it v ahead k e f n =
    choose_some (advance it) _ _ (v, ahead) e
    ∙ choose_some v.key _ _ k f
    ∙ choose_none (shown v (scan_versions v v ahead empty_scan).0) _ _ n

next_loop-shown :
    (fuel : ℕ) (it : MvccIterator) (v : Version) (ahead : List Version) (k x : Bytes)
    → advance it ≡ some (v, ahead)
    → v.key ≡ some k
    → let r = scan_versions v v ahead empty_scan in
      shown v r.0 ≡ some x
      → next_loop (suc fuel) it
        ≡ some (record (after_scan it r.1 r.2) { key = some k; value = some x }, true)
unfolding next_loop
next_loop-shown fuel it v ahead k x e f y =
    choose_some (advance it) _ _ (v, ahead) e
    ∙ choose_some v.key _ _ k f
    ∙ choose_some (shown v (scan_versions v v ahead empty_scan).0) _ _ x y

-- Enough fuel shows the next pair.
abbrev Progress : ℕ → Type 0
Progress fuel =
    (it : MvccIterator)
    → length (left_of it) < fuel
    → All IsProper (left_of it)
    → (o : MvccIterator × Bool) × (next_loop fuel it ≡ some o) × Shows (left_of it) o

Shows-more :
    (versions rest : List Version)
    → visible versions ≡ visible rest
    → length rest ≤ length versions
    → (o : MvccIterator × Bool) → Shows rest o
    → Shows versions o
Shows-more versions rest e l (it, false) s = e ∙ s
Shows-more versions rest e l (it, true) (a, b, c, d) = (e ∙ a, omega (arith, l, b), c, d)

round_nil :
    (fuel : ℕ) (it : MvccIterator) (v : Version) (ahead : List Version)
    → Progress fuel
    → advance it ≡ some (v, ahead)
    → v.key ≡ none
    → length ahead < fuel
    → All IsProper ahead
    → (o : MvccIterator × Bool) × (next_loop (suc fuel) it ≡ some o) × Shows (v ∷ ahead) o
unfolding next_loop
round_nil fuel it v ahead ih e k l h =
    let it' = record it { inner = record { current = some v; ahead = ahead }; peeked = false } in
    let g = left_unpeeked it (some v) ahead in
    let (o, run, shows) = ih it' (rw g l) (rw g h) in
    (
      o,
      next_loop-nil_key fuel it v ahead e k ∙ run,
      Shows-more (v ∷ ahead) (left_of it') (visible-nil_key v ahead k ∙ ap visible (sym g))
          (rw g (omega arith)) o shows,
    )

round_key :
    (fuel : ℕ) (it : MvccIterator) (v : Version) (ahead : List Version) (k : Bytes)
    → Progress fuel
    → advance it ≡ some (v, ahead)
    → v.key ≡ some k
    → k ≢ []
    → length ahead < fuel
    → All IsProper ahead
    → (o : MvccIterator × Bool) × (next_loop (suc fuel) it ≡ some o) × Shows (v ∷ ahead) o
unfolding next_loop
round_key fuel it v ahead k ih e f ne l h =
    let (s, inner, ended) = scan_versions v v ahead empty_scan in
    let (a, b, c, d) = scan-visible v v k ahead empty_scan f f ne h in
    let g = left_of-after_scan it inner ended in
    elim (Option-cases (shown v s)) [
      | inl n ↦
          let (o, run, shows) =
            ih (after_scan it inner ended) (rw g (omega (arith, b, l))) (rw g c) in
          (
            o,
            next_loop-hidden fuel it v ahead k e f n ∙ run,
            Shows-more (v ∷ ahead) (left_of (after_scan it inner ended)) (rw (g, a, n) refl)
                (rw g (omega (arith, b))) o shows,
          )
      | inr (x, y) ↦ (
        (record (after_scan it inner ended) { key = some k; value = some x }, true),
        next_loop-shown fuel it v ahead k x e f y,
        rw g (rw (a, y) refl, omega (arith, b), c, d),
      )
    ]

pub next_loop-Shows : (fuel : ℕ) → Progress fuel
unfolding visible
next_loop-Shows zero it l h = absurd (omega (arith, l))
next_loop-Shows (suc fuel) it l h = elim (Option-cases (advance it)) [
  | inl e ↦ (
    (record it { ended = true; peeked = false }, false),
    next_loop-exhausted fuel it e,
    ap visible (choose_none (advance it) _ _ e),
  )
  | inr ((v, ahead), e) ↦
      let q : left_of it ≡ v ∷ ahead = choose_some (advance it) _ _ (v, ahead) e in
      let (p, h') = subst (λ vs. All IsProper vs) q h in
      let m = subst (λ vs. length vs < suc fuel) q l in
      let l' : length ahead < fuel = omega (arith, m) in
      elim (Option-cases v.key) [
        | inl n ↦ rw q (round_nil fuel it v ahead (next_loop-Shows fuel) e n l' h')
        | inr (k, y) ↦
            rw q (
              round_key fuel it v ahead k (next_loop-Shows fuel) e y (λ z. p (y ∙ ap some z)) l' h')
      ]
]
