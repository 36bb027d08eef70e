-- ===== src/Base/Perms.antt =====
-- Predicates on lists that do not depend on the order, such as that of a Go map's entries.
use Prim.Native.Nat.{suc}
use mathlib.Core.Path.{◌≡◌, refl, ap, ◌∙◌, subst}
use mathlib.Core.Logic.{◌⊎◌, inl, inr}
use mathlib.Core.List.{List, [], ◌∷◌, Permᴰ}
use scoria_db.Base.Lists.{length, All}

abbrev pub Any : {A : Type 0} → (A → Type 0) → List A → Type 0
Any P [] = ⊥
Any P (x ∷ xs) = P x ⊎ Any P xs

module _ {A : Type 0} (P : A → Type 0) where
  pub Any-Perm : {xs ys : List A} → Permᴰ xs ys → Any P xs → Any P ys
  Any-Perm Permᴰ.nil a = a
  Any-Perm (Permᴰ.cons e p) (inl h) = inl (subst P e h)
  Any-Perm (Permᴰ.cons e p) (inr h) = inr (Any-Perm p h)
  Any-Perm (Permᴰ.swap e f) (inl h) = inr (inl (subst P e h))
  Any-Perm (Permᴰ.swap e f) (inr (inl h)) = inl (subst P f h)
  Any-Perm (Permᴰ.swap e f) (inr (inr h)) = inr (inr h)
  Any-Perm (Permᴰ.trans p q) a = Any-Perm q (Any-Perm p a)

  pub All-Perm : {xs ys : List A} → Permᴰ xs ys → All P xs → All P ys
  All-Perm Permᴰ.nil a = a
  All-Perm (Permᴰ.cons e p) (h, a) = (subst P e h, All-Perm p a)
  All-Perm (Permᴰ.swap e f) (h, (k, a)) = (subst P f k, (subst P e h, a))
  All-Perm (Permᴰ.trans p q) a = All-Perm q (All-Perm p a)

pub Any-map :
    {A : Type 0} {P Q : A → Type 0} (f : (x : A) → P x → Q x) (xs : List A) → Any P xs → Any Q xs
Any-map f [] h = absurd h
Any-map f (x ∷ xs) (inl h) = inl (f x h)
Any-map f (x ∷ xs) (inr h) = inr (Any-map f xs h)

pub All-map :
    {A : Type 0} {P Q : A → Type 0} (f : (x : A) → P x → Q x) (xs : List A) → All P xs → All Q xs
All-map f [] h = tt
All-map f (x ∷ xs) (p, h) = (f x p, All-map f xs h)

pub length-Perm : {A : Type 0} {xs ys : List A} → Permᴰ xs ys → length xs ≡ length ys
length-Perm Permᴰ.nil = refl
length-Perm (Permᴰ.cons e p) = ap suc (length-Perm p)
length-Perm (Permᴰ.swap e f) = refl
length-Perm (Permᴰ.trans p q) = length-Perm p ∙ length-Perm q
