-- ===== src/Engine/Sstable/Bloom/Positions.antt =====
-- The loops of Add and MayContain over the positions of a key.
use scoria_db.Base.{
  ℕ, zero, suc, ◌+◌, ◌/◌, ◌%◌, ◌^◌, ◌≤◌, ◌<◌, ◌≡◌, refl, sym, ap, ◌∙◌, ◌≢◌, inl, inr, Bool, true,
  false, not, Option, none, some, List, arith, ◌==◌, ==_iff, Bool-cases, Option-cases, length,
  get_elem?, set, All, get_elem?-of_lt, get_elem?-set, choose_some, All-get_elem?,
  get_elem?-set_other, All-set, length-set,
}
use Prim.Native.Nat.{bit_and, bit_or}
use native.Mathlib.Nat.{one-le-pow, pow-le-pow_right}
use scoria_db.Base.Bits.{bit_and-bit_or_le, le-bit_and-bit_or, bit_or-lt}
use scoria_db.Engine.Sstable.Bloom.{set_bit, test_bit, set_bits, test_bits, bits_len}

abbrev mask : ℕ → ℕ
mask pos = 2 ^ (pos % 64)

-- What setting a bit of a bitset does: the word, and the bitset after.
set_bit-parts :
    (bits bits' : List ℕ) (pos : ℕ)
    → set_bit bits pos ≡ some bits'
    → (w : ℕ) × (get_elem? bits (pos / 64) ≡ some w)
      × (bits' ≡ set bits (pos / 64) (bit_or w (mask pos)))
unfolding set_bit
set_bit-parts bits bits' pos h = elim (Option-cases (get_elem? bits (pos / 64))) [
  | inl e ↦ absurd (ground (arith, h, e))
  | inr (w, e) ↦
      let opened =
        choose_some (get_elem? bits (pos / 64)) none
          (λ w. some (set bits (pos / 64) (bit_or w (mask pos)))) w e in
      (w, e, ground (arith, sym opened ∙ h))
]

test_bit-word :
    (bits : List ℕ) (pos w : ℕ)
    → get_elem? bits (pos / 64) ≡ some w
    → test_bit bits pos ≡ some (not (bit_and w (mask pos) == 0))
unfolding test_bit
test_bit-word bits pos w e = rw (e, test_bit) refl

nonzero : (n : ℕ) → 0 < n → not (n == 0) ≡ true
nonzero n h = ground arith

nonzero_of : (n : ℕ) → not (n == 0) ≡ true → 0 < n
nonzero_of n h = ground arith

-- The bit that is set is set.
test_bit-set_bit :
    (bits bits' : List ℕ) (pos : ℕ) → set_bit bits pos ≡ some bits' → test_bit bits' pos ≡ some true
test_bit-set_bit bits bits' pos h =
    let (w, at, e) = set_bit-parts bits bits' pos h in
    let here : get_elem? bits' (pos / 64) ≡ some (bit_or w (mask pos)) =
      rw e (get_elem?-set bits (pos / 64) (bit_or w (mask pos)) w at) in
    test_bit-word bits' pos (bit_or w (mask pos)) here
    ∙ ap {B = Option Bool} (λ t. some t)
        (nonzero _ (omega (arith, le-bit_and-bit_or w (mask pos), one-le-pow (pos % 64) 2)))

some_inj : {a b : Bool} → some a ≡ some b → a ≡ b
some_inj h = ground (arith, h)

test_bit-same :
    (bits bits' : List ℕ) (pos : ℕ)
    → get_elem? bits' (pos / 64) ≡ get_elem? bits (pos / 64)
    → test_bit bits' pos ≡ test_bit bits pos
unfolding test_bit
test_bit-same bits bits' pos e = rw (e, test_bit) refl

-- The bits that were set before still are.
test_bit-kept :
    (bits bits' : List ℕ) (pos other : ℕ)
    → set_bit bits pos ≡ some bits'
    → test_bit bits other ≡ some true
    → test_bit bits' other ≡ some true
test_bit-kept bits bits' pos other h t =
    let (w, at, e) = set_bit-parts bits bits' pos h in
    let word = bit_or w (mask pos) in
    elim (Bool-cases (other / 64 == pos / 64)) [
      | inl q ↦
          let same : other / 64 ≡ pos / 64 = (==_iff _ _).0 q in
          let before : get_elem? bits (other / 64) ≡ some w = rw same at in
          let set_before : 0 < bit_and w (mask other) =
            nonzero_of _ (some_inj (sym (test_bit-word bits other w before) ∙ t)) in
          let after : get_elem? bits' (other / 64) ≡ some word =
            rw (same, e) (get_elem?-set bits (pos / 64) word w at) in
          test_bit-word bits' other word after
          ∙ ap {B = Option Bool} (λ t. some t)
              (nonzero _ (omega (arith, set_before, bit_and-bit_or_le w (mask pos) (mask other))))
      | inr q ↦
          let apart : pos / 64 ≢ other / 64 = λ r. ground (arith, q, r) in
          test_bit-same bits bits' other
            (rw e (get_elem?-set_other bits (pos / 64) (other / 64) word apart))
          ∙ t
    ]

-- The words of a filter of `m` bits.
pub record IsBitset (m : ℕ) (bits : List ℕ) : Type 0 where
  pub words_fit : All (λ w. w < 2 ^ 64) bits
  pub words_count : length bits ≡ bits_len m

mask-lt : (pos : ℕ) → mask pos < 2 ^ 64
mask-lt pos =
    omega (arith, pow-le-pow_right {n = 2} (omega arith) {i = pos % 64} {j = 63} (omega arith))

set_bit-IsBitset :
    (m : ℕ) (bits bits' : List ℕ) (pos : ℕ)
    → IsBitset m bits
    → set_bit bits pos ≡ some bits'
    → IsBitset m bits'
set_bit-IsBitset m bits bits' pos r h =
    let (w, at, e) = set_bit-parts bits bits' pos h in
    let fits : w < 2 ^ 64 = All-get_elem? (λ w. w < 2 ^ 64) bits (pos / 64) w r.words_fit at in
    record {
      words_fit = rw e (
          All-set (λ w. w < 2 ^ 64) bits (pos / 64) (bit_or w (mask pos)) r.words_fit
            (bit_or-lt 64 w (mask pos) fits (mask-lt pos)));
      words_count = rw e (length-set bits (pos / 64) (bit_or w (mask pos)) ∙ r.words_count);
    }

-- A position below `m` has its word.
set_bit-some :
    (m : ℕ) (bits : List ℕ) (pos : ℕ)
    → IsBitset m bits
    → m + 63 < 2 ^ 64
    → pos < m
    → (bits' : List ℕ) × (set_bit bits pos ≡ some bits')
unfolding set_bit bits_len
set_bit-some m bits pos r small h =
    let (w, e) = get_elem?-of_lt bits (pos / 64) (omega (arith, r.words_count, small, h)) in
    (set bits (pos / 64) (bit_or w (mask pos)), rw (e, set_bit) refl)

test_bit-some :
    (m : ℕ) (bits : List ℕ) (pos : ℕ)
    → IsBitset m bits
    → m + 63 < 2 ^ 64
    → pos < m
    → (b : Bool) × (test_bit bits pos ≡ some b)
unfolding bits_len
test_bit-some m bits pos r small h =
    let (w, e) = get_elem?-of_lt bits (pos / 64) (omega (arith, r.words_count, small, h)) in
    (not (bit_and w (mask pos) == 0), test_bit-word bits pos w e)

module _ (at : ℕ → ℕ) (m : ℕ) (small : m + 63 < 2 ^ 64) (inside : (i : ℕ) → at i < m) where
  -- What the loop of Add leaves: the positions of the key are set, with all that were set before.
  pub record Loop (left i : ℕ) (bits bits' : List ℕ) : Type 0 where
    pub done : set_bits at left i bits ≡ some bits'
    pub bitset : IsBitset m bits'
    pub kept : (pos : ℕ) → test_bit bits pos ≡ some true → test_bit bits' pos ≡ some true
    pub all_set : (j : ℕ) → i ≤ j → j < i + left → test_bit bits' (at j) ≡ some true

  pub set_bits-Loop :
      (left i : ℕ) (bits : List ℕ) → IsBitset m bits → (bits' : List ℕ) × Loop left i bits bits'
  unfolding set_bits
  set_bits-Loop zero i bits r = (
    bits,
    record {
      done = refl;
      bitset = r;
      kept = λ pos h. h;
      all_set = λ j p q. absurd (omega (arith, p, q));
    },
  )
  set_bits-Loop (suc left) i bits r =
      let (next, e) = set_bit-some m bits (at i) r small (inside i) in
      let (bits', rest) =
        set_bits-Loop left (suc i) next (set_bit-IsBitset m bits next (at i) r e) in
      (
        bits',
        record {
          done = rw (e, set_bits) rest.done;
          bitset = rest.bitset;
          kept = λ pos h. rest.kept pos (test_bit-kept bits next (at i) pos e h);
          all_set = λ j p q. elim (Bool-cases (j == i)) [
            | inl same ↦
                let first : j ≡ i = (==_iff j i).0 same in
                rw first (rest.kept (at i) (test_bit-set_bit bits next (at i) e))
            | inr apart ↦ rest.all_set j (ground (arith, p, apart)) (omega (arith, q))
          ];
        },
      )

  -- The loop of MayContain meets no index out of range.
  pub test_bits-some :
      (left i : ℕ) (bits : List ℕ)
      → IsBitset m bits
      → (b : Bool) × (test_bits at left i bits ≡ some b)
  unfolding test_bits
  test_bits-some zero i bits r = (true, refl)
  test_bits-some (suc left) i bits r =
      let (here, e) = test_bit-some m bits (at i) r small (inside i) in
      let (rest, q) = test_bits-some left (suc i) bits r in
      elim (Bool-cases here) [
        | inl holds ↦ (rest, rw (e, test_bits, holds) q)
        | inr fails ↦ (false, rw (e, test_bits, fails) refl)
      ]

module _ (at : ℕ → ℕ) where
  pub test_bits-all_set :
      (left i : ℕ) (bits : List ℕ)
      → ((j : ℕ) → i ≤ j → j < i + left → test_bit bits (at j) ≡ some true)
      → test_bits at left i bits ≡ some true
  unfolding test_bits
  test_bits-all_set zero i bits h = refl
  test_bits-all_set (suc left) i bits h =
      rw (h i (omega arith) (omega arith), test_bits)
        (test_bits-all_set left (suc i) bits (λ j p q. h j (omega (arith, p)) (omega (arith, q))))

  test_bits-first :
      (left i : ℕ) (bits : List ℕ)
      → test_bits at (suc left) i bits ≡ some true
      → (test_bit bits (at i) ≡ some true) × (test_bits at left (suc i) bits ≡ some true)
  unfolding test_bits
  test_bits-first left i bits h = elim (Option-cases (test_bit bits (at i))) [
    | inl e ↦ absurd (ground (arith, h, e))
    | inr (true, e) ↦ (e, ground (arith, h, e))
    | inr (false, e) ↦ absurd (ground (arith, h, e))
  ]

  pub test_bits-kept :
      (left i : ℕ) (bits bits' : List ℕ)
      → ((pos : ℕ) → test_bit bits pos ≡ some true → test_bit bits' pos ≡ some true)
      → test_bits at left i bits ≡ some true
      → test_bits at left i bits' ≡ some true
  unfolding test_bits
  test_bits-kept zero i bits bits' k h = refl
  test_bits-kept (suc left) i bits bits' k h =
      let (first, rest) = test_bits-first left i bits h in
      rw (k (at i) first, test_bits) (test_bits-kept left (suc i) bits bits' k rest)
