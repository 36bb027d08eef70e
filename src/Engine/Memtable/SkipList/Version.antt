-- ===== src/Engine/Memtable/SkipList/Version.antt =====
-- Whether a version is in a skip list, as the node behind the last node in front of it tells.
use scoria_db.Base.{
  subst, ℕ, ◌≡◌, refl, sym, ap, ◌∙◌, ◌≢◌, ◌↔◌, inl, inr, Bool, true, false, not, ◌&&◌, ◌||◌, List,
  [], ◌∷◌, arith, ◌==◌, Bool-cases, All,
}
use scoria_db.Base.Map.{bytes_equal_iff}
use scoria_db.Mvcc.{MvccKey}
use scoria_db.Engine.Memtable.Arena.{Arena, node_at}
use scoria_db.Engine.Memtable.Chain.{Mem, Chain, after, Sorted}
use scoria_db.Engine.Memtable.Chain.Members.{Mem-after, Sorted-fresh}
use scoria_db.Engine.Memtable.SkipList.{node_key_less, key_of, same_version}
use scoria_db.Engine.Memtable.SkipList.Order.{node_key_less_irrefl}
use scoria_db.Engine.Memtable.SkipList.Search.{in_front, keys}
use scoria_db.Engine.Memtable.SkipList.Valid.{pred, Chain-after}
use scoria_db.Engine.Memtable.SkipList.Entries.{Entry, entries, entry_of}

unfoldable pub has_version : MvccKey → List Entry → Bool
has_version key [] = false
has_version key (e ∷ es) = same_version e.key key || has_version key es

pub same_version_iff : (a b : MvccKey) → (same_version a b ≡ true) ↔ (a ≡ b)
same_version_iff a b = (
  λ h.
      let k : a.key ≡ b.key = (bytes_equal_iff a.key b.key).0 (ground (arith, h)) in
      let t : a.timestamp ≡ b.timestamp = ground (arith, h) in cc (k, t),
  λ e. rw e (ground (arith, (bytes_equal_iff b.key b.key).1 refl)),
)

has_version-fresh :
    (key : MvccKey) (a : Arena) (xs : List ℕ)
    → All (λ i. keys a i ≢ key) xs
    → has_version key (entries a xs) ≡ false
unfolding has_version entry_of
has_version-fresh key a [] h = refl
has_version-fresh key a (x ∷ xs) (n, h) =
    ground (arith, n, same_version_iff (keys a x) key, has_version-fresh key a xs h)

pub fresh-has_version :
    (key : MvccKey) (a : Arena) (xs : List ℕ)
    → has_version key (entries a xs) ≡ false
    → All (λ i. keys a i ≢ key) xs
unfolding has_version entry_of
fresh-has_version key a [] h = tt
fresh-has_version key a (x ∷ xs) h = (
  λ e.
      let y : same_version (keys a x) key ≡ true = (same_version_iff (keys a x) key).1 e in
      ground (arith, y, h),
  fresh-has_version key a xs (ground (arith, h)),
)

has_version-Mem :
    (key : MvccKey) (a : Arena) (x : ℕ) (xs : List ℕ)
    → Mem x xs
    → same_version (keys a x) key ≡ true
    → has_version key (entries a xs) ≡ true
unfolding has_version entry_of
has_version-Mem key a x [] m y = absurd m
has_version-Mem key a x (z ∷ zs) (inl e) y =
    let y' : same_version (keys a z) key ≡ true = rw e y in ground (arith, y')
has_version-Mem key a x (z ∷ zs) (inr m) y = ground (arith, has_version-Mem key a x zs m y)

-- The node behind `p` has the version.
abbrev pub next_has : MvccKey → Arena → ℕ → Bool
next_has key a next_idx = not (next_idx == 0) && same_version (key_of (node_at next_idx a)) key

abbrev head_or : List ℕ → ℕ
head_or [] = 0
head_or (x ∷ xs) = x

abbrev is_nil : List ℕ → Bool
is_nil [] = true
is_nil (x ∷ xs) = false

nil_ne : (x : ℕ) (rest : List ℕ) → [] ≢ x ∷ rest
nil_ne x rest e = let h : true ≡ false = ap is_nil e in ground (arith, h)

cons_head : (x y : ℕ) (xs ys : List ℕ) → x ∷ xs ≡ y ∷ ys → x ≡ y
cons_head x y xs ys e = ap head_or e

module _ (key : MvccKey) (a : Arena) (xs : List ℕ) (s : Sorted node_key_less (keys a) xs) where
  next_has-of :
      (f : ℕ → ℕ) (p : ℕ) (ys : List ℕ)
      → after (in_front key a) xs ≡ ys
      → Chain f p ys
      → next_has key a (f p) ≡ has_version key (entries a xs)
  next_has-of f p [] e c =
      let none_at : f p ≡ 0 = c in
      rw c (
        sym (
          has_version-fresh key a xs (
            Sorted-fresh node_key_less node_key_less_irrefl (keys a) key xs s
              (λ x rest q. absurd (nil_ne x rest (sym e ∙ q))))))
  next_has-of f p (y ∷ ys) e (fp, nz, c) =
      let at : Mem y xs = Mem-after (in_front key a) y xs (subst (Mem y) (sym e) (inl refl)) in
      let some_at : (y == 0) ≡ false = ground (arith, nz) in
      rw (fp, some_at)
        (elim (Bool-cases (same_version (keys a y) key)) [
          | inl h ↦ h ∙ sym (has_version-Mem key a y xs at h)
          | inr n ↦
              n
              ∙ sym (
                  has_version-fresh key a xs (
                    Sorted-fresh node_key_less node_key_less_irrefl (keys a) key xs s
                      (λ x rest q k. not_same y x (cons_head y x ys rest (sym e ∙ q)) n k)))
        ])
    where
      not_same : (u w : ℕ) → u ≡ w → same_version (keys a u) key ≡ false → keys a w ≢ key
      not_same u w e n k =
          let h = (same_version_iff (keys a u) key).1 (rw e k) in ground (arith, h, n)

  pub next_has-version :
      (f : ℕ → ℕ)
      → Chain f 0 xs
      → next_has key a (f (pred key a xs)) ≡ has_version key (entries a xs)
  next_has-version f c =
      next_has-of f (pred key a xs) (after (in_front key a) xs) refl
        (Chain-after (in_front key a) f 0 xs c)
