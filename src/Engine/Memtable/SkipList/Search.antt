-- ===== src/Engine/Memtable/SkipList/Search.antt =====
-- Searches on valid levels: wherever a walk starts in front of the key, it ends at the last node in
-- front of it.
use scoria_db.Base.{
  subst, ℕ, zero, suc, ◌<◌, ◌≡◌, refl, sym, ap, ◌∙◌, ◌≢◌, ◌⊎◌, inl, inr, Bool, true, false, List,
  [], ◌∷◌, arith, ◌==◌, Bool-cases, length,
}
use scoria_db.Mvcc.{MvccKey}
use scoria_db.Engine.Memtable.Arena.{Arena, node_at}
use scoria_db.Engine.Memtable.Chain.{Mem, Chain, last_of, before, Sorted, All-Mem}
use scoria_db.Engine.Memtable.SkipList.Order.{node_key_less_trans}
use scoria_db.Engine.Memtable.SkipList.{node_key_less, key_of, walk}

abbrev pub links : Arena → ℕ → ℕ → ℕ
links a level i = (node_at i a).next level

abbrev pub keys : Arena → ℕ → MvccKey
keys a i = key_of (node_at i a)

-- The node is in front of the key.
abbrev pub in_front : MvccKey → Arena → ℕ → Bool
in_front key a i = node_key_less (keys a i) key

pub ne_zero : (x : ℕ) → x ≢ 0 → (x == 0) ≡ false
ne_zero x h = ground (arith, h)

walk-last_of :
    (fuel level : ℕ) (key : MvccKey) (p : ℕ) (a : Arena) (xs : List ℕ)
    → Chain (links a level) p xs
    → length xs < fuel
    → walk fuel level key p a ≡ last_of p (before (in_front key a) xs)
unfolding walk
walk-last_of zero level key p a xs c l = absurd (omega (arith, l))
walk-last_of (suc fuel) level key p a [] c l = rw c refl
walk-last_of (suc fuel) level key p a (x ∷ xs) (fp, nz, c) l =
    elim (Bool-cases (in_front key a x)) [
      | inl y ↦ rw (fp, y, ne_zero x nz) (walk-last_of fuel level key x a xs c (omega (arith, l)))
      | inr n ↦ rw (fp, n, ne_zero x nz) refl
    ]

-- Where a search may come from: the start of the level, or a node on it that is in front.
abbrev pub IsStart : MvccKey → Arena → ℕ → List ℕ → ℕ → Type 0
IsStart key a p xs i = (i ≡ p) ⊎ (Mem i xs × (in_front key a i ≡ true))

pub walk-IsStart :
    (fuel level : ℕ) (key : MvccKey) (p i : ℕ) (a : Arena) (xs : List ℕ)
    → Chain (links a level) p xs
    → Sorted node_key_less (keys a) xs
    → length xs < fuel
    → IsStart key a p xs i
    → walk fuel level key i a ≡ last_of p (before (in_front key a) xs)
walk-IsStart fuel level key p i a [] c s l st = elim st [
  | inl e ↦ rw e (walk-last_of fuel level key p a [] c l)
  | inr (m, f) ↦ absurd m
]
walk-IsStart fuel level key p i a (x ∷ xs) (fp, nz, c) (h, s) l st = elim st [
  | inl e ↦ rw e (walk-last_of fuel level key p a (x ∷ xs) (fp, nz, c) l)
  | inr (inl e, f) ↦
      let y : in_front key a x ≡ true = ap (in_front key a) e ∙ f in
      rw (← e, y) (walk-last_of fuel level key x a xs c (omega (arith, l)))
  | inr (inr m, f) ↦
      let y : in_front key a x ≡ true =
        node_key_less_trans (keys a x) (keys a i) key
          (All-Mem (λ z. node_key_less (keys a x) (keys a z) ≡ true) i xs h m) f in
      rw y (walk-IsStart fuel level key x i a xs c s (omega (arith, l)) (inr (m, f)))
]

-- The end of a search is a start on the level that it searched.
pub last_of-IsStart :
    (key : MvccKey) (a : Arena) (p : ℕ) (xs : List ℕ)
    → IsStart key a p xs (last_of p (before (in_front key a) xs))
last_of-IsStart key a p [] = inl refl
last_of-IsStart key a p (x ∷ xs) = elim (Bool-cases (in_front key a x)) [
  | inl y ↦
      let q : last_of p (before (in_front key a) (x ∷ xs))
          ≡ last_of x (before (in_front key a) xs) =
        rw y refl in
      subst (IsStart key a p (x ∷ xs)) (sym q) (elim (last_of-IsStart key a x xs) [
        | inl e ↦ inr (inl (sym e), ap (in_front key a) e ∙ y)
        | inr (m, f) ↦ inr (inr m, f)
      ])
  | inr n ↦ inl (rw n refl)
]
