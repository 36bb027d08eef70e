-- ===== src/Base/Search.antt =====
-- sort.Search of the Go library: a binary search for the first index at which a test holds.
use Prim.Native.Nat.{ℕ, zero, suc, ◌+◌, ◌/◌, ◌≤◌, ◌<◌}
use mathlib.Core.Path.{◌≡◌, subst}
use mathlib.Core.Bool.{Bool, true, false}
use mathlib.Core.Logic.{inl, inr}
use native.Mathlib.Omega.{arith}
use scoria_db.Base.Tests.{ltb, Bool-cases, ltb→lt}

-- The loop `for i < j`, over a bound on its rounds.
unfoldable pub search_loop : (ℕ → Bool) → ℕ → ℕ → ℕ → ℕ
search_loop f zero i j = i
search_loop f (suc fuel) i j = elim (ltb i j) [
  | false ↦ i
  | true ↦ elim (f ((i + j) / 2)) [
    | false ↦ search_loop f fuel ((i + j) / 2 + 1) j
    | true ↦ search_loop f fuel i ((i + j) / 2)
  ]
]

-- Each round shortens the range.
unfoldable pub search : ℕ → (ℕ → Bool) → ℕ
unfolding search_loop
search n f = search_loop f n 0 n

-- The first index below `n` at which the test holds, `n` if there is none.
pub record IsFirst (f : ℕ → Bool) (n r : ℕ) : Type 0 where
  pub in_range : r ≤ n
  pub below : (i : ℕ) → i < r → f i ≡ false
  pub holds : r < n → f r ≡ true

module _ (f : ℕ → Bool) (upward : (i j : ℕ) → i ≤ j → f i ≡ true → f j ≡ true) where
  downward : (i j : ℕ) → i ≤ j → f j ≡ false → f i ≡ false
  downward i j le h = elim (Bool-cases (f i)) [
    | inl e ↦ absurd (ground (arith, h, upward i j le e))
    | inr e ↦ e
  ]

  search_loop-IsFirst :
      (n fuel i j : ℕ)
      → i ≤ j
      → j ≤ n
      → j ≤ i + fuel
      → ((k : ℕ) → k < i → f k ≡ false)
      → (j < n → f j ≡ true)
      → IsFirst f n (search_loop f fuel i j)
  unfolding search_loop
  search_loop-IsFirst n zero i j p q r low high =
      let same : j ≡ i = omega (arith, p, r) in
      record {
        in_range = omega (arith, p, q);
        below = low;
        holds = λ s. subst (λ k. f k ≡ true) same (high (omega (arith, s, same)));
      }
  search_loop-IsFirst n (suc fuel) i j p q r low high = elim (Bool-cases (ltb i j)) [
    | inr e ↦
        let same : j ≡ i = ground (arith, p, e) in
        rw (e, search_loop)
          (record {
            in_range = omega (arith, p, q);
            below = low;
            holds = λ s. subst (λ k. f k ≡ true) same (high (omega (arith, s, same)));
          })
    | inl e ↦
        let lt : i < j = ltb→lt i j e in
        let mid = (i + j) / 2 in
        elim (Bool-cases (f mid)) [
          | inl g ↦
              rw (e, g, search_loop)
                (search_loop-IsFirst n fuel i mid (omega (arith, lt)) (omega (arith, lt, q))
                  (omega (arith, lt, r)) low (λ s. g))
          | inr g ↦
              rw (e, g, search_loop)
                (search_loop-IsFirst n fuel (mid + 1) j (omega (arith, lt)) q (omega (arith, lt, r))
                  (λ k s. downward k mid (omega (arith, s)) g) high)
        ]
  ]

  -- A binary search finds the first index at which a test holds that holds from some index on.
  pub search-IsFirst : (n : ℕ) → IsFirst f n (search n f)
  unfolding search
  search-IsFirst n =
      search_loop-IsFirst n n 0 n (omega arith) (omega arith) (omega arith)
        (λ k s. absurd (omega (arith, s))) (λ s. absurd (omega (arith, s)))
