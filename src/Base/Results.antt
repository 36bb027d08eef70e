-- ===== src/Base/Results.antt =====
-- Go's pair of a value and an error: a function returns one of the two.
use mathlib.Core.Path.{◌≡◌, refl}
use mathlib.Core.Logic.{◌⊎◌, inl, inr}

pub data Result {ℓ κ} (E : Type ℓ) (A : Type κ) : Type (ℓ ⊔ κ) where
  ok : A → Result E A
  err : E → Result E A

-- `if err != nil { return err }` between two calls
infixl 5 ◌>>=◌
abbrev pub ◌>>=◌ {ℓ κ μ} :
    {E : Type ℓ} {A : Type κ} {B : Type μ} → Result E A → (A → Result E B) → Result E B
err failure >>= continue = err failure
ok value >>= continue = continue value

module _ {ℓ κ} {E : Type ℓ} {A : Type κ} where
  -- To split on a computed result and keep the equation.
  pub Result-cases :
      (r : Result E A) → ((value : A) × (r ≡ ok value)) ⊎ ((failure : E) × (r ≡ err failure))
  Result-cases (ok value) = inl (value, refl)
  Result-cases (err failure) = inr (failure, refl)

  -- What a chain that succeeds consists of.
  pub ok_of_bind {μ} :
      {B : Type μ} (first : Result E A) (continue : A → Result E B) {y : B}
      → (first >>= continue) ≡ ok y
      → (x : A) × (first ≡ ok x) × (continue x ≡ ok y)
  ok_of_bind (err failure) continue h = cc
  ok_of_bind (ok value) continue h = (value, refl, h)
