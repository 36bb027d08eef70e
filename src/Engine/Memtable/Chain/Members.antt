-- ===== src/Engine/Memtable/Chain/Members.antt =====
-- What is in a chain, and what stays when a node is put in: the nodes, their number and their order.
use scoria_db.Base.{
  ℕ, ◌+◌, ◌≡◌, refl, sym, ap, ◌≢◌, inl, inr, Bool, true, false, List, [], ◌∷◌, arith, Bool-cases,
  length, All, subst,
}
use scoria_db.Mvcc.{MvccKey}
use scoria_db.Engine.Memtable.Chain.{Mem, Chain, after, insert_at, Distinct, Sorted}

pub All-of : (P : ℕ → Type 0) (xs : List ℕ) → ((i : ℕ) → Mem i xs → P i) → All P xs
All-of P [] h = tt
All-of P (x ∷ xs) h = (h x (inl refl), All-of P xs (λ i m. h i (inr m)))

pub All-map : (P Q : ℕ → Type 0) (xs : List ℕ) → ((i : ℕ) → P i → Q i) → All P xs → All Q xs
All-map P Q [] h a = tt
All-map P Q (x ∷ xs) h (p, a) = (h x p, All-map P Q xs h a)

pub All-both : (P Q : ℕ → Type 0) (xs : List ℕ) → All P xs → All Q xs → All (λ x. P x × Q x) xs
All-both P Q [] a b = tt
All-both P Q (x ∷ xs) (p, a) (q, b) = ((p, q), All-both P Q xs a b)

module _ (t : ℕ → Bool) (new : ℕ) where
  pub Mem-insert_at_new : (xs : List ℕ) → Mem new (insert_at t new xs)
  Mem-insert_at_new [] = inl refl
  Mem-insert_at_new (x ∷ xs) = elim (Bool-cases (t x)) [
    | inl y ↦ rw y (inr (Mem-insert_at_new xs))
    | inr n ↦ rw n (inl refl)
  ]

  pub Mem-insert_at : (i : ℕ) (xs : List ℕ) → Mem i xs → Mem i (insert_at t new xs)
  Mem-insert_at i [] m = absurd m
  Mem-insert_at i (x ∷ xs) m = elim (Bool-cases (t x)) [
    | inl y ↦ rw y (elim m [ inl e ↦ inl e | inr k ↦ inr (Mem-insert_at i xs k) ])
    | inr n ↦ rw n (inr m)
  ]

  pub length-insert_at : (xs : List ℕ) → length (insert_at t new xs) ≡ length xs + 1
  length-insert_at [] = refl
  length-insert_at (x ∷ xs) = elim (Bool-cases (t x)) [
    | inl y ↦ rw (y, length-insert_at xs) (omega arith)
    | inr n ↦ rw n (omega arith)
  ]

pub Mem-after : (t : ℕ → Bool) (i : ℕ) (xs : List ℕ) → Mem i (after t xs) → Mem i xs
Mem-after t i [] m = absurd m
Mem-after t i (x ∷ xs) m = elim (Bool-cases (t x)) [
  | inl y ↦
      let q : after t (x ∷ xs) ≡ after t xs = rw y refl in
      inr (Mem-after t i xs (subst (Mem i) q m))
  | inr n ↦ let q : after t (x ∷ xs) ≡ x ∷ xs = rw n refl in subst (Mem i) q m
]

pub insert_at_cong :
    (t u : ℕ → Bool) (new : ℕ) (xs : List ℕ)
    → All (λ x. t x ≡ u x) xs
    → insert_at t new xs ≡ insert_at u new xs
insert_at_cong t u new [] h = refl
insert_at_cong t u new (x ∷ xs) (e, h) = rw (e, insert_at_cong t u new xs h) refl

pub Chain-nonzero : (f : ℕ → ℕ) (p : ℕ) (xs : List ℕ) → Chain f p xs → All (λ x. 0 ≢ x) xs
Chain-nonzero f p [] c = tt
Chain-nonzero f p (x ∷ xs) (fp, nz, c) = (λ e. nz (sym e), Chain-nonzero f x xs c)

module _ (less : MvccKey → MvccKey → Bool) (irrefl : (a : MvccKey) → less a a ≡ false)
    (κ : ℕ → MvccKey) where
  pub in_front_ne : (a b : MvccKey) → less a b ≡ true → a ≢ b
  in_front_ne a b h e = let same : less a b ≡ false = rw e (irrefl b) in ground (arith, h, same)

  pub Sorted-Distinct : (xs : List ℕ) → Sorted less κ xs → Distinct xs
  Sorted-Distinct [] s = tt
  Sorted-Distinct (x ∷ xs) (a, s) = (
    All-map (λ y. less (κ x) (κ y) ≡ true) (λ y. x ≢ y) xs
        (λ y h e. in_front_ne (κ x) (κ y) h (ap κ e)) a,
    Sorted-Distinct xs s,
  )

  -- Where the first that is not in front of a key has another key, no other has the key.
  pub Sorted-fresh :
      (key : MvccKey) (xs : List ℕ)
      → Sorted less κ xs
      → ((x : ℕ) (rest : List ℕ) → after (λ i. less (κ i) key) xs ≡ x ∷ rest → κ x ≢ key)
      → All (λ i. κ i ≢ key) xs
  Sorted-fresh key [] s h = tt
  Sorted-fresh key (x ∷ xs) (a, s) h = elim (Bool-cases (less (κ x) key)) [
    | inl y ↦ (in_front_ne (κ x) key y, Sorted-fresh key xs s (λ z rest e. h z rest (rw y e)))
    | inr n ↦ (
      h x xs (rw n refl),
      All-map (λ y. less (κ x) (κ y) ≡ true) (λ y. κ y ≢ key) xs
          (λ y b e. let c : less (κ x) key ≡ true = rw (← e) b in ground (arith, c, n)) a,
    )
  ]
