-- ===== src/Keys/Order.antt =====
-- `compare_keys` against the lexicographic order, and the laws of that order.
use Prim.Native.Nat.{compare}
use scoria_db.Base.{ℕ, zero, suc, ◌≡◌, refl, [], ◌∷◌, arith, Ordering}
use scoria_db.Base.Bytes.{Bytes}
use scoria_db.Keys.{min_len, compare_prefix, compare_lengths, compare_keys}

-- The lexicographic order, a shorter key before its extensions.
unfoldable pub lex : Bytes → Bytes → Ordering
lex [] [] = Ordering.eq
lex [] (y ∷ b) = Ordering.lt
lex (x ∷ a) [] = Ordering.gt
lex (x ∷ a) (y ∷ b) = elim (compare x y) [
  | Ordering.lt ↦ Ordering.lt
  | Ordering.gt ↦ Ordering.gt
  | Ordering.eq ↦ lex a b
]

abbrev pub opposite : Ordering → Ordering
opposite Ordering.lt = Ordering.gt
opposite Ordering.eq = Ordering.eq
opposite Ordering.gt = Ordering.lt

prefix-lex :
    (n : ℕ) (a b : Bytes)
    → n ≡ min_len a b
    → (elim (compare_prefix n a b) [
      | Ordering.lt ↦ Ordering.lt
      | Ordering.gt ↦ Ordering.gt
      | Ordering.eq ↦ compare_lengths a b
    ])
      ≡ lex a b
unfolding min_len compare_prefix compare_lengths lex
prefix-lex n [] [] h = ground arith
prefix-lex n [] (y ∷ b) h = ground arith
prefix-lex n (x ∷ a) [] h = ground arith
prefix-lex zero (x ∷ a) (y ∷ b) h = ground arith
prefix-lex (suc n) (x ∷ a) (y ∷ b) h = ground (arith, prefix-lex n a b)

-- CompareKeys is the lexicographic order of byte strings.
pub compare_keys-eq-lex : (a b : Bytes) → compare_keys a b ≡ lex a b
unfolding compare_keys
compare_keys-eq-lex a b = prefix-lex (min_len a b) a b refl

pub lex_refl : (a : Bytes) → lex a a ≡ Ordering.eq
unfolding lex
lex_refl [] = refl
lex_refl (x ∷ a) = ground (arith, lex_refl a)

pub lex-eq : (a b : Bytes) → lex a b ≡ Ordering.eq → a ≡ b
unfolding lex
lex-eq [] [] h = refl
lex-eq [] (y ∷ b) h = ground arith
lex-eq (x ∷ a) [] h = ground arith
lex-eq (x ∷ a) (y ∷ b) h = ground (arith, lex-eq a b)

pub lex-opposite : (a b : Bytes) → lex b a ≡ opposite (lex a b)
unfolding lex
lex-opposite [] [] = refl
lex-opposite [] (y ∷ b) = refl
lex-opposite (x ∷ a) [] = refl
lex-opposite (x ∷ a) (y ∷ b) = ground (arith, lex-opposite a b)

pub lex_trans :
    (a b c : Bytes) → lex a b ≡ Ordering.lt → lex b c ≡ Ordering.lt → lex a c ≡ Ordering.lt
unfolding lex
lex_trans [] [] c p q = ground arith
lex_trans [] (y ∷ b) [] p q = ground arith
lex_trans [] (y ∷ b) (z ∷ c) p q = refl
lex_trans (x ∷ a) [] c p q = ground arith
lex_trans (x ∷ a) (y ∷ b) [] p q = ground arith
lex_trans (x ∷ a) (y ∷ b) (z ∷ c) p q = ground (arith, lex_trans a b c)
