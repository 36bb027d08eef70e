-- ===== src/Base/Bits.antt =====
-- `|` and `&` on words: what is set stays set, and a word keeps its width.
use Prim.Native.Nat.{
  ◌*◌, min, max, digits, bitwise, bit_and, bit_or, bit_and-bitwise, bit_or-bitwise, ℕ, zero, suc,
  ◌+◌, ◌/◌, ◌%◌, ◌^◌, ◌≤◌, ◌<◌,
}
use mathlib.Core.Path.{◌≡◌, refl, ap}
use native.Mathlib.Omega.{arith}
use native.Mathlib.Nat.{pow-suc}

module _ (last : ℕ → ℕ) (op : ℕ → ℕ → ℕ) where
  -- Any count of digits that the first number does not exceed gives the same.
  count_irrelevant : (a b n m : ℕ) → a ≤ n → a ≤ m → digits last op n a b ≡ digits last op m a b
  count_irrelevant zero b zero zero p q = refl
  count_irrelevant zero b zero (suc m) p q = refl
  count_irrelevant zero b (suc n) zero p q = refl
  count_irrelevant zero b (suc n) (suc m) p q = refl
  count_irrelevant (suc a) b zero m p q = absurd (omega (arith, p))
  count_irrelevant (suc a) b (suc n) zero p q = absurd (omega (arith, q))
  count_irrelevant (suc a) b (suc n) (suc m) p q =
      ap (λ t. t * 2 + op (suc a % 2) (b % 2))
        (count_irrelevant (suc a / 2) (b / 2) n m (omega (arith, p)) (omega (arith, q)))

  -- The lowest digit, and the digits above it.
  halves :
      (a b : ℕ)
      → bitwise last op (suc a) b ≡ bitwise last op (suc a / 2) (b / 2) * 2 + op (suc a % 2) (b % 2)
  halves a b =
      ap (λ t. t * 2 + op (suc a % 2) (b % 2))
        (count_irrelevant (suc a / 2) (b / 2) a (suc a / 2) (omega arith) (omega arith))

bit_or-halves : (a b : ℕ) → bit_or a b ≡ bit_or (a / 2) (b / 2) * 2 + max (a % 2) (b % 2)
bit_or-halves zero b = simp bit_or-bitwise (omega arith)
bit_or-halves (suc a) b = simp bit_or-bitwise (halves (λ y. y) max a b)

bit_and-halves : (a b : ℕ) → bit_and a b ≡ bit_and (a / 2) (b / 2) * 2 + min (a % 2) (b % 2)
bit_and-halves zero b = simp bit_and-bitwise (omega arith)
bit_and-halves (suc a) b = simp bit_and-bitwise (halves (λ y. zero) min a b)

-- The digits of `w | x`.
or_above : (w x : ℕ) → bit_or w x / 2 ≡ bit_or (w / 2) (x / 2)
or_above w x = omega (arith, bit_or-halves w x)

or_lowest : (w x : ℕ) → bit_or w x % 2 ≡ max (w % 2) (x % 2)
or_lowest w x = omega (arith, bit_or-halves w x)

-- Along one number of digits `n`, which `w` and `x` do not exceed.
kept_within : (n w x y : ℕ) → w ≤ n → x ≤ n → bit_and w y ≤ bit_and (bit_or w x) y
kept_within zero zero x y p q = simp bit_and-bitwise (omega arith)
kept_within zero (suc w) x y p q = absurd (omega (arith, p))
kept_within (suc n) w x y p q = omega (
  arith,
  bit_and-halves w y,
  bit_and-halves (bit_or w x) y,
  or_lowest w x,
  ap (λ t. bit_and t (y / 2)) (or_above w x),
  kept_within n (w / 2) (x / 2) (y / 2) (omega (arith, p)) (omega (arith, q)),
)

-- A bit that is set stays set when others are set.
pub bit_and-bit_or_le : (w x y : ℕ) → bit_and w y ≤ bit_and (bit_or w x) y
bit_and-bit_or_le w x y = kept_within (w + x) w x y (omega arith) (omega arith)

own_within : (n w x : ℕ) → w ≤ n → x ≤ n → x ≤ bit_and (bit_or w x) x
own_within zero w zero p q = omega arith
own_within zero w (suc x) p q = absurd (omega (arith, q))
own_within (suc n) w x p q = omega (
  arith,
  bit_and-halves (bit_or w x) x,
  or_lowest w x,
  ap (λ t. bit_and t (x / 2)) (or_above w x),
  own_within n (w / 2) (x / 2) (omega (arith, p)) (omega (arith, q)),
)

-- The bits that are set are set.
pub le-bit_and-bit_or : (w x : ℕ) → x ≤ bit_and (bit_or w x) x
le-bit_and-bit_or w x = own_within (w + x) w x (omega arith) (omega arith)

-- Two words of `n` bits make a word of `n` bits.
pub bit_or-lt : (n a b : ℕ) → a < 2 ^ n → b < 2 ^ n → bit_or a b < 2 ^ n
bit_or-lt zero a b p q =
    let none_left : a ≡ 0 = omega (arith, p) in
    let none_right : b ≡ 0 = omega (arith, q) in rw (none_left, none_right) (omega arith)
bit_or-lt (suc n) a b p q = omega (
  arith,
  pow-suc 2 n,
  bit_or-halves a b,
  bit_or-lt n (a / 2) (b / 2) (omega (arith, p, pow-suc 2 n)) (omega (arith, q, pow-suc 2 n)),
)
