-- ===== src/Engine/Sstable/Bloom/Members.antt =====
-- A key that was added is never denied.
use scoria_db.Base.{
  ℕ, ◌+◌, ◌%◌, ◌^◌, ◌<◌, ◌≡◌, refl, sym, ◌∙◌, true, false, ◌||◌, Option, none, some, List, [], ◌∷◌,
  arith, ◌==◌, All, choose_else, choose_some, Bool,
}
use scoria_db.Base.Bytes.{Bytes}
use native.Mathlib.Nat.{mod-lt}
use scoria_db.Engine.Sstable.Bloom.{
  BloomFilter, set_bits, test_bits, bit_position, add, may_contain,
}
use scoria_db.Engine.Sstable.Bloom.RoundTrip.{IsSized}
use scoria_db.Engine.Sstable.Bloom.Positions.{
  IsBitset, set_bits-Loop, test_bits-some, test_bits-all_set, test_bits-kept,
}

-- A filter that has bits and hash functions, and room for the count of its words.
pub record IsUsable (b : BloomFilter) : Type 0 where
  pub sized : IsSized b
  pub m_rounds : b.m + 63 < 2 ^ 64
  pub m_positive : 0 < b.m
  pub k_positive : 0 < b.k

-- The filter after a key was added, against the one before.
pub record IsAdded (key : Bytes) (b b' : BloomFilter) : Type 0 where
  pub usable : IsUsable b'
  pub found : may_contain b' key ≡ some true
  pub kept : (other : Bytes) → may_contain b other ≡ some true → may_contain b' other ≡ some true

position-lt : (b : BloomFilter) (key : Bytes) → 0 < b.m → (i : ℕ) → bit_position b key i < b.m
unfolding bit_position
position-lt b key h i = mod-lt _ h

-- The filter that Add leaves.
after : BloomFilter → List ℕ → BloomFilter
after b bits = record b { bits = bits; n = (b.n + 1) % 2 ^ 64 }

not_empty : (b : BloomFilter) → 0 < b.m → 0 < b.k → (b.m == 0 || b.k == 0) ≡ false
not_empty b p q = ground (arith, p, q)

may_contain-test_bits :
    (b : BloomFilter) (key : Bytes)
    → 0 < b.m
    → 0 < b.k
    → may_contain b key ≡ test_bits (bit_position b key) b.k 0 b.bits
unfolding may_contain
may_contain-test_bits b key p q = choose_else _ (some false) _ (not_empty b p q)

add-set_bits :
    (key : Bytes) (b : BloomFilter) (bits : List ℕ)
    → 0 < b.m
    → 0 < b.k
    → set_bits (bit_position b key) b.k 0 b.bits ≡ some bits
    → add key b ≡ some (after b bits)
unfolding add after
add-set_bits key b bits p q e =
    choose_else _ (some b) _ (not_empty b p q)
    ∙ choose_some _ none (λ bits. some (after b bits)) bits e

after-IsUsable :
    (b : BloomFilter) (bits : List ℕ) → IsUsable b → IsBitset b.m bits → IsUsable (after b bits)
unfolding after
after-IsUsable b bits u r = record {
  sized = record {
    m_fits = u.sized.m_fits;
    k_fits = u.sized.k_fits;
    n_fits = omega arith;
    seed_fits = u.sized.seed_fits;
    words_fit = r.words_fit;
    words_count = r.words_count;
  };
  m_rounds = u.m_rounds;
  m_positive = u.m_positive;
  k_positive = u.k_positive;
}

-- The positions of a key do not depend on what is set.
may_contain-after :
    (b : BloomFilter) (bits : List ℕ) (key : Bytes)
    → IsUsable b
    → may_contain (after b bits) key ≡ test_bits (bit_position b key) b.k 0 bits
unfolding after bit_position
may_contain-after b bits key u = may_contain-test_bits (after b bits) key u.m_positive u.k_positive

-- Adding a key to a usable filter succeeds and leaves it usable; the key may be contained from then
-- on, and so may every key that was before.
pub add-IsAdded :
    (key : Bytes) (b : BloomFilter)
    → IsUsable b
    → (b' : BloomFilter) × (add key b ≡ some b') × IsAdded key b b'
add-IsAdded key b u =
    let start : IsBitset b.m b.bits = record {
      words_fit = u.sized.words_fit;
      words_count = u.sized.words_count;
    } in
    let at = bit_position b key in
    let (bits, loop) =
      set_bits-Loop at b.m u.m_rounds (position-lt b key u.m_positive) b.k 0 b.bits start in
    (
      after b bits,
      add-set_bits key b bits u.m_positive u.k_positive loop.done,
      record {
        usable = after-IsUsable b bits u loop.bitset;
        found = may_contain-after b bits key u ∙ test_bits-all_set at b.k 0 bits loop.all_set;
        kept = λ other h.
            may_contain-after b bits other u
            ∙ test_bits-kept (bit_position b other) b.k 0 b.bits bits loop.kept
                (sym (may_contain-test_bits b other u.m_positive u.k_positive) ∙ h);
      },
    )

-- A usable filter answers for every key.
pub may_contain-some :
    (b : BloomFilter) (key : Bytes)
    → IsUsable b
    → (answer : Bool) × (may_contain b key ≡ some answer)
may_contain-some b key u =
    let bitset : IsBitset b.m b.bits = record {
      words_fit = u.sized.words_fit;
      words_count = u.sized.words_count;
    } in
    let (answer, e) =
      test_bits-some (bit_position b key) b.m u.m_rounds (position-lt b key u.m_positive) b.k 0
        b.bits bitset in
    (answer, may_contain-test_bits b key u.m_positive u.k_positive ∙ e)

-- The calls of Add of a writer, one for each entry.
unfoldable pub add_all : List Bytes → BloomFilter → Option BloomFilter
add_all [] b = some b
add_all (key ∷ keys) b = elim (add key b) [ none ↦ none | some b' ↦ add_all keys b' ]

-- The filter after some keys were added, against the one before.
pub record IsFilterOf (keys : List Bytes) (b b' : BloomFilter) : Type 0 where
  pub usable : IsUsable b'
  pub found : All (λ key. may_contain b' key ≡ some true) keys
  pub kept : (other : Bytes) → may_contain b other ≡ some true → may_contain b' other ≡ some true

-- Adding keys to a usable filter one after the other succeeds, and the filter denies none of them.
pub add_all-IsFilterOf :
    (keys : List Bytes) (b : BloomFilter)
    → IsUsable b
    → (b' : BloomFilter) × (add_all keys b ≡ some b') × IsFilterOf keys b b'
unfolding add_all
add_all-IsFilterOf [] b u = (b, refl, record { usable = u; found = tt; kept = λ other h. h })
add_all-IsFilterOf (key ∷ keys) b u =
    let (next, e, one) = add-IsAdded key b u in
    let (b', es, more) = add_all-IsFilterOf keys next one.usable in
    (
      b',
      rw (e, add_all) es,
      record {
        usable = more.usable;
        found = (more.kept key one.found, more.found);
        kept = λ other h. more.kept other (one.kept other h);
      },
    )
