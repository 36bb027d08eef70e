-- ===== src/Base/Lists.antt =====
-- Lists measured and indexed by native numbers, under the library's names.
use Prim.Native.Nat.{ℕ, zero, suc, ◌+◌, ◌<◌}
use mathlib.Core.Path.{◌≡◌, refl, ap, subst}
use mathlib.Core.Logic.{◌≢◌}
use mathlib.Core.List.{List, [], ◌∷◌, ◌++◌}
use mathlib.Core.Option.{Option, none, some}
use native.Mathlib.Omega.{arith}

module _ {ℓ} {A : Type ℓ} where
  abbrev pub length : List A → ℕ
  length [] = 0
  length (x ∷ xs) = suc (length xs)

  abbrev pub get_elem? : List A → ℕ → Option A
  get_elem? [] i = none
  get_elem? (x ∷ xs) zero = some x
  get_elem? (x ∷ xs) (suc i) = get_elem? xs i

  -- A write out of bounds changes nothing.
  abbrev pub set : List A → ℕ → A → List A
  set [] i v = []
  set (x ∷ xs) zero v = v ∷ xs
  set (x ∷ xs) (suc i) v = x ∷ set xs i v

  abbrev pub take : ℕ → List A → List A
  take zero xs = []
  take (suc n) [] = []
  take (suc n) (x ∷ xs) = x ∷ take n xs

  abbrev pub drop : ℕ → List A → List A
  drop zero xs = xs
  drop (suc n) [] = []
  drop (suc n) (x ∷ xs) = drop n xs

  abbrev pub replicate : ℕ → A → List A
  replicate zero a = []
  replicate (suc n) a = a ∷ replicate n a

  abbrev pub All {κ} : (A → Type κ) → List A → Type κ
  All P [] = Unit {κ}
  All P (x ∷ xs) = P x × All P xs

  pub length-append : (xs ys : List A) → length (xs ++ ys) ≡ length xs + length ys
  length-append [] ys = omega arith
  length-append (x ∷ xs) ys = omega (arith, length-append xs ys)

  pub length-replicate : (n : ℕ) (a : A) → length (replicate n a) ≡ n
  length-replicate zero a = refl
  length-replicate (suc n) a = ap suc (length-replicate n a)

module _ {ℓ κ} {A : Type ℓ} (P : A → Type κ) where
  pub All-append : (xs ys : List A) → All P xs → All P ys → All P (xs ++ ys)
  All-append [] ys h k = k
  All-append (x ∷ xs) ys (p, h) k = (p, All-append xs ys h k)

  pub All-append_left : (xs ys : List A) → All P (xs ++ ys) → All P xs
  All-append_left [] ys h = tt
  All-append_left (x ∷ xs) ys (p, h) = (p, All-append_left xs ys h)

  pub All-append_right : (xs ys : List A) → All P (xs ++ ys) → All P ys
  All-append_right [] ys h = h
  All-append_right (x ∷ xs) ys (p, h) = All-append_right xs ys h

module _ {ℓ} {A : Type ℓ} where
  -- What a write in bounds is read back as, and what it leaves alone.
  pub get_elem?-set :
      (l : List A) (i : ℕ) (v w : A) → get_elem? l i ≡ some w → get_elem? (set l i v) i ≡ some v
  get_elem?-set [] i v w h = ground arith
  get_elem?-set (x ∷ l) zero v w h = refl
  get_elem?-set (x ∷ l) (suc i) v w h = get_elem?-set l i v w h

  pub get_elem?-set_other :
      (l : List A) (i j : ℕ) (v : A) → i ≢ j → get_elem? (set l i v) j ≡ get_elem? l j
  get_elem?-set_other [] i j v h = refl
  get_elem?-set_other (x ∷ l) zero zero v h = absurd (h refl)
  get_elem?-set_other (x ∷ l) zero (suc j) v h = refl
  get_elem?-set_other (x ∷ l) (suc i) zero v h = refl
  get_elem?-set_other (x ∷ l) (suc i) (suc j) v h = get_elem?-set_other l i j v (λ e. h (ap suc e))

  pub length-set : (l : List A) (i : ℕ) (v : A) → length (set l i v) ≡ length l
  length-set [] i v = refl
  length-set (x ∷ l) zero v = refl
  length-set (x ∷ l) (suc i) v = ap suc (length-set l i v)

  pub get_elem?-of_lt : (l : List A) (i : ℕ) → i < length l → (v : A) × (get_elem? l i ≡ some v)
  get_elem?-of_lt [] i h = absurd (omega (arith, h))
  get_elem?-of_lt (x ∷ l) zero h = (x, refl)
  get_elem?-of_lt (x ∷ l) (suc i) h = get_elem?-of_lt l i (omega (arith, h))

module _ {ℓ κ} {A : Type ℓ} (P : A → Type κ) where
  pub All-get_elem? : (l : List A) (i : ℕ) (v : A) → All P l → get_elem? l i ≡ some v → P v
  All-get_elem? [] i v h e = ground arith
  All-get_elem? (x ∷ l) zero v (p, h) e = subst P (ground arith) p
  All-get_elem? (x ∷ l) (suc i) v (p, h) e = All-get_elem? l i v h e

  pub All-set : (l : List A) (i : ℕ) (v : A) → All P l → P v → All P (set l i v)
  All-set [] i v h q = tt
  All-set (x ∷ l) zero v (p, h) q = (q, h)
  All-set (x ∷ l) (suc i) v (p, h) q = (p, All-set l i v h q)
