-- ===== src/Base/Int.antt =====
-- Signed integers of w bits, and their conversion to and from the unsigned ones.
use Prim.Native.Nat.{ℕ, zero, suc, ◌+◌, ◌-◌, ◌<◌}
use mathlib.Core.Path.{◌≡◌}
use mathlib.Core.Bool.{Bool, true, false}
use native.Mathlib.Omega.{arith}
use scoria_db.Base.Tests.{ltb, ltb→lt, if◌then◌else◌, Bool-cases}
use mathlib.Core.Logic.{inl, inr}

-- `negsuc n` is -(n + 1).
pub data ℤ : Type 0 where
  pos : ℕ → ℤ
  negsuc : ℕ → ℤ

-- `x < 0`
abbrev pub is_negative : ℤ → Bool
is_negative (pos n) = false
is_negative (negsuc n) = true

-- `x <= 0`
abbrev pub is_nonpositive : ℤ → Bool
is_nonpositive (pos zero) = true
is_nonpositive (pos (suc n)) = false
is_nonpositive (negsuc n) = true

-- The value of an integer that is not negative.
abbrev pub pos_part : ℤ → ℕ
pos_part (pos n) = n
pos_part (negsuc n) = 0

-- `uint64(x)` and `uint32(x)` for a modulus `m`: two's complement.
abbrev pub to_unsigned : ℕ → ℤ → ℕ
to_unsigned m (pos n) = n
to_unsigned m (negsuc n) = m - (n + 1)

-- `int64(u)` and `int32(u)`, where `h` is half the modulus.
abbrev pub of_unsigned : ℕ → ℕ → ℤ
of_unsigned h u = if ltb u h then pos u else negsuc (h + h - u - 1)

-- The values of an integer type whose modulus is `h + h`.
abbrev pub IsSigned : ℕ → ℤ → Type 0
IsSigned h (pos n) = n < h
IsSigned h (negsuc n) = n < h

pub of_unsigned-to_unsigned :
    (h : ℕ) (x : ℤ) → IsSigned h x → of_unsigned h (to_unsigned (h + h) x) ≡ x
of_unsigned-to_unsigned h (pos n) r = ground arith
of_unsigned-to_unsigned h (negsuc n) r = ground arith

pub to_unsigned-lt : (h : ℕ) (x : ℤ) → IsSigned h x → to_unsigned (h + h) x < h + h
to_unsigned-lt h (pos n) r = omega arith
to_unsigned-lt h (negsuc n) r = omega arith

pub of_unsigned-IsSigned : (h u : ℕ) → u < h + h → IsSigned h (of_unsigned h u)
of_unsigned-IsSigned h u r = elim (Bool-cases (ltb u h)) [
  | inl e ↦ rw e (ltb→lt u h e)
  | inr e ↦ rw e (ground arith)
]
