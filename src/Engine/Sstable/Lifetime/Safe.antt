-- ===== src/Engine/Sstable/Lifetime/Safe.antt =====
-- The mapping is there while somebody who has acquired the reader reads it, and goes when the reader is
-- closed and released.
use scoria_db.Base.{
  subst, ℕ, ◌+◌, ◌-◌, ◌<◌, ◌≡◌, refl, inl, inr, true, false, not, ◌&&◌, ◌||◌, some, arith, ◌==◌,
  Bool-cases,
}
use scoria_db.Engine.Sstable.Lifetime.{
  State, opened, Action, acquire, begin_lookup, end_lookup, begin_unheld_lookup, end_unheld_lookup,
  decrement, test_last, load_closed, store_closed, load_count, perform, Reaches, start, then_do,
}

pub record IsLifetime (s : State) : Type 0 where
  -- every caller of Acquire is counted
  pub counted : s.ref_count ≡ s.holding + s.reading
  pub open_mapped : s.closed ≡ false → s.mapped ≡ true
  pub readers_mapped : 0 < s.reading → s.mapped ≡ true
  pub begun : 0 < s.closing → s.closed ≡ true
  -- once the reader is closed, somebody is left who will unmap the file
  pub pending : s.closed ≡ true → s.mapped ≡ true → 0 < s.ref_count + s.releasing + s.closing

some_inj : {A : Type 0} {a b : A} → some a ≡ some b → a ≡ b
some_inj h = cc

nonzero : (n : ℕ) → (n == 0) ≡ false → 0 < n
nonzero n h = ground (arith, h)

acquired :
    (s : State)
    → IsLifetime s
    → IsLifetime (record s { ref_count = s.ref_count + 1; holding = s.holding + 1 })
acquired s h = record {
  counted = omega (arith, h.counted);
  open_mapped = h.open_mapped;
  readers_mapped = h.readers_mapped;
  begun = h.begun;
  pending = λ c m. omega arith;
}

-- A new reader: the table is not closed, so the mapping is there.
looked :
    (s : State)
    → IsLifetime s
    → 0 < s.holding
    → s.closed ≡ false
    → IsLifetime (record s { holding = s.holding - 1; reading = s.reading + 1 })
looked s h p c = record {
  counted = omega (arith, h.counted, p);
  open_mapped = h.open_mapped;
  readers_mapped = λ r. h.open_mapped c;
  begun = h.begun;
  pending = h.pending;
}

returned_from :
    (s : State)
    → IsLifetime s
    → 0 < s.reading
    → IsLifetime (record s { holding = s.holding + 1; reading = s.reading - 1 })
returned_from s h p = record {
  counted = omega (arith, h.counted, p);
  open_mapped = h.open_mapped;
  readers_mapped = λ r. h.readers_mapped p;
  begun = h.begun;
  pending = h.pending;
}

-- A caller that is not counted changes nothing that the others rely on.
uncounted : (s : State) (n : ℕ) → IsLifetime s → IsLifetime (record s { unheld = n })
uncounted s n h = record {
  counted = h.counted;
  open_mapped = h.open_mapped;
  readers_mapped = h.readers_mapped;
  begun = h.begun;
  pending = h.pending;
}

decremented :
    (s : State)
    → IsLifetime s
    → 0 < s.holding
    → IsLifetime (record s {
      ref_count = s.ref_count - 1;
      holding = s.holding - 1;
      releasing = s.releasing + 1;
    })
decremented s h p = record {
  counted = omega (arith, h.counted, p);
  open_mapped = h.open_mapped;
  readers_mapped = h.readers_mapped;
  begun = h.begun;
  pending = λ c m. omega arith;
}

-- The last one out: with nobody counted, nobody reads.
tested :
    (s : State)
    → IsLifetime s
    → 0 < s.releasing
    → IsLifetime (record s {
      releasing = s.releasing - 1;
      mapped = s.mapped && not (s.closed && s.ref_count == 0);
    })
tested s h p = record {
  counted = h.counted;
  open_mapped = λ c. ground (arith, c, h.open_mapped c);
  readers_mapped = λ r. ground (arith, r, h.readers_mapped r, h.counted);
  begun = h.begun;
  pending = λ c m. ground (arith, m, c);
}

checked : (s : State) → IsLifetime s → IsLifetime (record s { checking = s.checking + 1 })
checked s h = record {
  counted = h.counted;
  open_mapped = h.open_mapped;
  readers_mapped = h.readers_mapped;
  begun = h.begun;
  pending = h.pending;
}

stored_closed :
    (s : State)
    → IsLifetime s
    → IsLifetime (record s { closed = true; checking = s.checking - 1; closing = s.closing + 1 })
stored_closed s h = record {
  counted = h.counted;
  open_mapped = λ c. ground (arith, c);
  readers_mapped = h.readers_mapped;
  begun = λ c. refl;
  pending = λ c m. omega arith;
}

loaded :
    (s : State)
    → IsLifetime s
    → 0 < s.closing
    → IsLifetime (record s { closing = s.closing - 1; mapped = s.mapped && not (s.ref_count == 0) })
loaded s h p = record {
  counted = h.counted;
  open_mapped = λ c. ground (arith, c, h.begun p);
  readers_mapped = λ r. ground (arith, r, h.readers_mapped r, h.counted);
  begun = λ c. h.begun p;
  pending = λ c m. ground (arith, m);
}

-- No piece breaks the invariant, in whatever order they run.
pub perform-IsLifetime :
    (a : Action) (s t : State) → IsLifetime s → perform a s ≡ some t → IsLifetime t
unfolding perform
perform-IsLifetime acquire s t h e = subst IsLifetime (some_inj e) (acquired s h)
perform-IsLifetime begin_lookup s t h e = elim (Bool-cases (s.holding == 0)) [
  | inl p ↦ absurd (ground (arith, e, p))
  | inr p ↦ elim (Bool-cases s.closed) [
    | inl c ↦ subst IsLifetime (ground (arith, e, p, c)) h
    | inr c ↦ subst IsLifetime (ground (arith, e, p, c)) (looked s h (nonzero s.holding p) c)
  ]
]
perform-IsLifetime end_lookup s t h e = elim (Bool-cases (s.reading == 0)) [
  | inl p ↦ absurd (ground (arith, e, p))
  | inr p ↦ subst IsLifetime (ground (arith, e, p)) (returned_from s h (nonzero s.reading p))
]
perform-IsLifetime begin_unheld_lookup s t h e = elim (Bool-cases s.closed) [
  | inl c ↦ subst IsLifetime (ground (arith, e, c)) h
  | inr c ↦ subst IsLifetime (ground (arith, e, c)) (uncounted s (s.unheld + 1) h)
]
perform-IsLifetime end_unheld_lookup s t h e = elim (Bool-cases (s.unheld == 0)) [
  | inl p ↦ absurd (ground (arith, e, p))
  | inr p ↦ subst IsLifetime (ground (arith, e, p)) (uncounted s (s.unheld - 1) h)
]
perform-IsLifetime decrement s t h e = elim (Bool-cases (s.holding == 0 || s.ref_count == 0)) [
  | inl p ↦ absurd (ground (arith, e, p))
  | inr p ↦ subst IsLifetime (ground (arith, e, p)) (decremented s h (ground (arith, p)))
]
perform-IsLifetime test_last s t h e = elim (Bool-cases (s.releasing == 0)) [
  | inl p ↦ absurd (ground (arith, e, p))
  | inr p ↦ subst IsLifetime (ground (arith, e, p)) (tested s h (nonzero s.releasing p))
]
perform-IsLifetime load_closed s t h e = elim (Bool-cases s.closed) [
  | inl c ↦ subst IsLifetime (ground (arith, e, c)) h
  | inr c ↦ subst IsLifetime (ground (arith, e, c)) (checked s h)
]
perform-IsLifetime store_closed s t h e = elim (Bool-cases (s.checking == 0)) [
  | inl p ↦ absurd (ground (arith, e, p))
  | inr p ↦ subst IsLifetime (ground (arith, e, p)) (stored_closed s h)
]
perform-IsLifetime load_count s t h e = elim (Bool-cases (s.closing == 0)) [
  | inl p ↦ absurd (ground (arith, e, p))
  | inr p ↦ subst IsLifetime (ground (arith, e, p)) (loaded s h (nonzero s.closing p))
]

opened-IsLifetime : IsLifetime opened
opened-IsLifetime = record {
  counted = refl;
  open_mapped = λ c. refl;
  readers_mapped = λ r. refl;
  begun = λ c. absurd (omega (arith, c));
  pending = λ c m. ground (arith, c);
}

pub Reaches-IsLifetime : {s : State} → Reaches opened s → IsLifetime s
Reaches-IsLifetime start = opened-IsLifetime
Reaches-IsLifetime (then_do {t} {u} a before e) =
    perform-IsLifetime a t u (Reaches-IsLifetime before) e

-- In whatever order the pieces of the calls run, while a caller that has acquired the reader reads in
-- Lookup the mapping is there, also beside callers that read without Acquire.
pub reading-mapped : (s : State) → Reaches opened s → 0 < s.reading → s.mapped ≡ true
reading-mapped s r p = (Reaches-IsLifetime r).readers_mapped p

-- In whatever order the pieces of the calls run, when the reader is closed, every reference is released
-- and no call of Release or Close is under way, the file is unmapped.
pub released-unmapped :
    (s : State)
    → Reaches opened s
    → s.closed ≡ true
    → s.ref_count ≡ 0
    → s.releasing ≡ 0
    → s.closing ≡ 0
    → s.mapped ≡ false
released-unmapped s r c p q o = elim (Bool-cases s.mapped) [
  | inl m ↦ absurd (omega (arith, p, q, o, (Reaches-IsLifetime r).pending c m))
  | inr m ↦ m
]
