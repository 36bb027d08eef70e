-- ===== src/Engine/Memtable/Chain.antt =====
-- Chains of indices, and the insertion of one more: the proofs on one level of a skip list.
pub mod Members
use scoria_db.Base.{
  subst, ℕ, ◌≡◌, refl, sym, ap, ◌∙◌, ◌≢◌, inl, inr, Bool, true, false, List, [], ◌∷◌, if◌then◌else◌,
  Bool-cases, All, Any,
}
use scoria_db.Mvcc.{MvccKey}

abbrev pub Mem : ℕ → List ℕ → Type 0
Mem i xs = Any (λ x. x ≡ i) xs

-- The links lead from `p` through `xs` to the index 0.
abbrev pub Chain : (ℕ → ℕ) → ℕ → List ℕ → Type 0
Chain f p [] = f p ≡ 0
Chain f p (x ∷ xs) = (f p ≡ x) × (x ≢ 0) × Chain f x xs

abbrev pub last_of : ℕ → List ℕ → ℕ
last_of p [] = p
last_of p (x ∷ xs) = last_of x xs

-- The indices in front of the first that fails the test, and the rest.
abbrev pub before : (ℕ → Bool) → List ℕ → List ℕ
before t [] = []
before t (x ∷ xs) = let rest = before t xs in if t x then x ∷ rest else []

abbrev pub after : (ℕ → Bool) → List ℕ → List ℕ
after t [] = []
after t (x ∷ xs) = let rest = after t xs in if t x then rest else x ∷ xs

abbrev pub insert_at : (ℕ → Bool) → ℕ → List ℕ → List ℕ
insert_at t new [] = new ∷ []
insert_at t new (x ∷ xs) = let rest = insert_at t new xs in if t x then x ∷ rest else new ∷ x ∷ xs

abbrev pub Distinct : List ℕ → Type 0
Distinct [] = Unit {0}
Distinct (x ∷ xs) = All (λ y. x ≢ y) xs × Distinct xs

pub Chain-frame :
    (f g : ℕ → ℕ) (p : ℕ) (xs : List ℕ)
    → g p ≡ f p
    → All (λ x. g x ≡ f x) xs
    → Chain f p xs
    → Chain g p xs
Chain-frame f g p [] e h c = e ∙ c
Chain-frame f g p (x ∷ xs) e (ex, h) (fp, nz, c) = (e ∙ fp, nz, Chain-frame f g x xs ex h c)

-- An index that is in no place of a chain is not the last one either.
last_of-before-ne :
    (t : ℕ → Bool) (q x : ℕ) (xs : List ℕ)
    → q ≢ x
    → All (λ y. q ≢ y) xs
    → q ≢ last_of x (before t xs)
last_of-before-ne t q x [] n h = n
last_of-before-ne t q x (y ∷ ys) n (m, h) = elim (Bool-cases (t y)) [
  | inl e ↦ rw e (last_of-before-ne t q y ys m h)
  | inr e ↦ rw e n
]

-- The links of a chain that no write has changed.
same_links :
    (f g : ℕ → ℕ) (new p : ℕ) (xs : List ℕ)
    → All (λ x. new ≢ x) xs
    → All (λ x. p ≢ x) xs
    → ((i : ℕ) → i ≢ new → i ≢ p → g i ≡ f i)
    → All (λ x. g x ≡ f x) xs
same_links f g new p [] n q go = tt
same_links f g new p (x ∷ xs) (n, ns) (q, qs) go =
    (go x (λ e. n (sym e)) (λ e. q (sym e)), same_links f g new p xs ns qs go)

-- A node is put into a chain by two writes: its own link, and that of the last node in front of it.
pub Chain-insert_at :
    (t : ℕ → Bool) (f g : ℕ → ℕ) (new p last : ℕ) (xs : List ℕ)
    → Chain f p xs
    → new ≢ 0
    → new ≢ p
    → All (λ x. new ≢ x) xs
    → All (λ x. p ≢ x) xs
    → Distinct xs
    → last ≡ last_of p (before t xs)
    → g last ≡ new
    → g new ≡ f last
    → ((i : ℕ) → i ≢ new → i ≢ last → g i ≡ f i)
    → Chain g p (insert_at t new xs)
Chain-insert_at t f g new p last [] c nz np nx px d e gl gn go =
    (ap g (sym e) ∙ gl, nz, gn ∙ ap f e ∙ c)
Chain-insert_at t f g new p last (x ∷ xs) (fp, xz, c) nz np (nx, nxs) (px, pxs) (xd, d) e gl gn go =
    elim (Bool-cases (t x)) [
      | inl y ↦
          let e' : last ≡ last_of x (before t xs) = e ∙ rw y refl in
          let pl : p ≢ last = λ q. last_of-before-ne t p x xs px pxs (q ∙ e') in
          rw y (
            go p (λ q. np (sym q)) pl ∙ fp,
            xz,
            Chain-insert_at t f g new x last xs c nz nx nxs xd d e' gl gn go,
          )
      | inr n ↦
          let e' : last ≡ p = e ∙ rw n refl in
          let go' : (i : ℕ) → i ≢ new → i ≢ p → g i ≡ f i = λ i a b. go i a (λ q. b (q ∙ e')) in
          rw n (
            ap g (sym e') ∙ gl,
            nz,
            (
              gn ∙ ap f e' ∙ fp,
              xz,
              Chain-frame f g x xs (go' x (λ q. nx (sym q)) (λ q. px (sym q)))
                  (same_links f g new p xs nxs pxs go') c,
            ),
          )
    ]

pub All-insert_at :
    (P : ℕ → Type 0) (t : ℕ → Bool) (new : ℕ) (xs : List ℕ)
    → P new
    → All P xs
    → All P (insert_at t new xs)
All-insert_at P t new [] p h = (p, tt)
All-insert_at P t new (x ∷ xs) p (q, h) = elim (Bool-cases (t x)) [
  | inl y ↦ rw y (q, All-insert_at P t new xs p h)
  | inr n ↦ rw n (p, (q, h))
]

module _ (less : MvccKey → MvccKey → Bool) where
  -- In the order of the keys, each in front of all that follow.
  abbrev pub Sorted : (ℕ → MvccKey) → List ℕ → Type 0
  Sorted κ [] = Unit {0}
  Sorted κ (x ∷ xs) = All (λ y. less (κ x) (κ y) ≡ true) xs × Sorted κ xs

  less_cong :
      (κ λ' : ℕ → MvccKey) (k : MvccKey) (xs : List ℕ)
      → All (λ x. λ' x ≡ κ x) xs
      → All (λ y. less k (κ y) ≡ true) xs
      → All (λ y. less k (λ' y) ≡ true) xs
  less_cong κ λ' k [] h a = tt
  less_cong κ λ' k (x ∷ xs) (e, h) (b, a) = (ap (less k) e ∙ b, less_cong κ λ' k xs h a)

  pub Sorted-cong :
      (κ λ' : ℕ → MvccKey) (xs : List ℕ) → All (λ x. λ' x ≡ κ x) xs → Sorted κ xs → Sorted λ' xs
  Sorted-cong κ λ' [] h s = tt
  Sorted-cong κ λ' (x ∷ xs) (e, h) (a, s) = (
    less_cong κ λ' (λ' x) xs h (subst (λ k. All (λ y. less k (κ y) ≡ true) xs) (sym e) a),
    Sorted-cong κ λ' xs h s,
  )

  module _ (trans : (a b c : MvccKey) → less a b ≡ true → less b c ≡ true → less a c ≡ true)
      (κ : ℕ → MvccKey) where
    All-after :
        (k : MvccKey) (x : ℕ) (xs : List ℕ)
        → less k (κ x) ≡ true
        → All (λ y. less (κ x) (κ y) ≡ true) xs
        → All (λ y. less k (κ y) ≡ true) xs
    All-after k x [] e h = tt
    All-after k x (y ∷ ys) e (b, h) = (trans k (κ x) (κ y) e b, All-after k x ys e h)

    pub Sorted-insert_at :
        (new : ℕ) (xs : List ℕ)
        → All (λ y. less (κ y) (κ new) ≡ false → less (κ new) (κ y) ≡ true) xs
        → Sorted κ xs
        → Sorted κ (insert_at (λ x. less (κ x) (κ new)) new xs)
    Sorted-insert_at new [] h s = (tt, tt)
    Sorted-insert_at new (x ∷ xs) (c, h) (a, s) = elim (Bool-cases (less (κ x) (κ new))) [
      | inl y ↦ rw y (
        All-insert_at (λ z. less (κ x) (κ z) ≡ true) (λ z. less (κ z) (κ new)) new xs y a,
        Sorted-insert_at new xs h s,
      )
      | inr n ↦ rw n ((c n, All-after (κ new) x xs (c n) a), (a, s))
    ]

pub All-Mem : (P : ℕ → Type 0) (i : ℕ) (xs : List ℕ) → All P xs → Mem i xs → P i
All-Mem P i [] h m = absurd m
All-Mem P i (x ∷ xs) (p, h) (inl e) = subst P e p
All-Mem P i (x ∷ xs) (p, h) (inr m) = All-Mem P i xs h m
