-- ===== src/Base/Slices.antt =====
-- Slice expressions with both bounds, as Go checks them, and the comparison of a converted uint64.
use Prim.Native.Nat.{◌-◌, ℕ, ◌+◌, ◌^◌, ◌≤◌}
use mathlib.Core.Path.{◌≡◌, refl, ap, ◌∙◌, subst}
use mathlib.Core.Bool.{Bool, true, false, ◌&&◌}
use mathlib.Core.List.{◌++◌, append-nil, []}
use native.Mathlib.Omega.{arith}
use scoria_db.Base.Lists.{length, length-append, take, drop}
use scoria_db.Base.Results.{Result, ok, err}
use scoria_db.Base.Tests.{leb, ltb, if◌then◌else◌, choose_then}
use scoria_db.Base.Bytes.{Bytes, take-append_of_length, drop-append_of_length}

-- `data[lo:hi]`; bounds that do not fit give the error of the run-time panic.
unfoldable pub slice {ℓ} : {E : Type ℓ} → E → ℕ → ℕ → Bytes → Result E Bytes
slice e lo hi bytes =
    if leb lo hi && leb hi (length bytes) then ok (take (hi - lo) (drop lo bytes)) else err e

-- `int(u) > n` for a uint64 `u`, where an int has 64 bits and `n` is a length.
unfoldable pub int_above : ℕ → ℕ → Bool
int_above u n = ltb n u && ltb u (2 ^ 63)

pub int_above-le : (u n : ℕ) → u ≤ n → int_above u n ≡ false
unfolding int_above
int_above-le u n h = ground arith

module _ {ℓ} {E : Type ℓ} where
  -- The bytes that stand between two others.
  pub slice-append :
      (e : E) (lo hi : ℕ) (xs ys zs : Bytes)
      → length xs ≡ lo
      → lo + length ys ≡ hi
      → slice e lo hi (xs ++ (ys ++ zs)) ≡ ok ys
  unfolding slice
  slice-append e lo hi xs ys zs p q =
      let fits : (leb lo hi && leb hi (length (xs ++ (ys ++ zs)))) ≡ true =
        ground (arith, length-append {0} xs (ys ++ zs), length-append {0} ys zs) in
      choose_then _ (ok (take (hi - lo) (drop lo (xs ++ (ys ++ zs))))) (err e) fits
      ∙ ap {B = Result E Bytes} (λ t. ok t)
          (ap (λ t. take (hi - lo) t) (drop-append_of_length lo xs (ys ++ zs) p)
            ∙ take-append_of_length (hi - lo) ys zs (omega arith))

  -- All that stands behind some bytes.
  pub slice_to_end :
      (e : E) (lo hi : ℕ) (xs ys : Bytes)
      → length xs ≡ lo
      → length (xs ++ ys) ≡ hi
      → slice e lo hi (xs ++ ys) ≡ ok ys
  slice_to_end e lo hi xs ys p q =
      subst (λ l. slice e lo hi (xs ++ l) ≡ ok ys) (append-nil ys)
        (slice-append e lo hi xs ys [] p (omega (arith, length-append {0} xs ys)))

  -- Some of the bytes that stand behind others.
  pub slice_within :
      (e : E) (lo hi n : ℕ) (xs ys : Bytes)
      → length xs ≡ lo
      → lo + n ≡ hi
      → n ≤ length ys
      → slice e lo hi (xs ++ ys) ≡ ok (take n ys)
  unfolding slice
  slice_within e lo hi n xs ys p q r =
      let fits : (leb lo hi && leb hi (length (xs ++ ys))) ≡ true =
        ground (arith, length-append {0} xs ys) in
      let count : hi - lo ≡ n = omega arith in
      choose_then _ (ok (take (hi - lo) (drop lo (xs ++ ys)))) (err e) fits
      ∙ ap {B = Result E Bytes} (λ t. ok t) (rw (count, drop-append_of_length lo xs ys p) refl)
