-- ===== src/Keys.antt =====
-- internal/keys/keys.go: the order of user keys. Go's results -1, 0 and 1 are `lt`, `eq` and `gt`.
pub mod Order
mod Runs
use Prim.Native.Nat.{compare}
use scoria_db.Base.{ℕ, zero, suc, [], ◌∷◌, ltb, if◌then◌else◌, length, Ordering}
use scoria_db.Base.Bytes.{Bytes}

-- `if len(b) < minLen { minLen = len(b) }`
min_len : Bytes → Bytes → ℕ
min_len a b = if ltb (length b) (length a) then length b else length a

-- The loop over the first `n` bytes: the first difference decides, `eq` if there is none.
compare_prefix : ℕ → Bytes → Bytes → Ordering
compare_prefix zero a b = Ordering.eq
compare_prefix (suc n) [] b = Ordering.eq
compare_prefix (suc n) (x ∷ a) [] = Ordering.eq
compare_prefix (suc n) (x ∷ a) (y ∷ b) = elim (compare x y) [
  | Ordering.lt ↦ Ordering.lt
  | Ordering.gt ↦ Ordering.gt
  | Ordering.eq ↦ compare_prefix n a b
]

compare_lengths : Bytes → Bytes → Ordering
compare_lengths a b =
    if ltb (length a) (length b)
    then Ordering.lt
    else if ltb (length b) (length a)
    then Ordering.gt
    else Ordering.eq

unfoldable pub compare_keys : Bytes → Bytes → Ordering
unfolding min_len compare_prefix compare_lengths
compare_keys a b = elim (compare_prefix (min_len a b) a b) [
  | Ordering.lt ↦ Ordering.lt
  | Ordering.gt ↦ Ordering.gt
  | Ordering.eq ↦ compare_lengths a b
]
