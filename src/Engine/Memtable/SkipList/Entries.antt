-- ===== src/Engine/Memtable/SkipList/Entries.antt =====
-- What a skip list stands for: its versions in the order of the lowest level.
use scoria_db.Base.{
  ℕ, ◌≡◌, refl, inl, inr, Bool, Option, List, [], ◌∷◌, if◌then◌else◌, Bool-cases, All,
}
use scoria_db.Base.Bytes.{Bytes}
use scoria_db.Mvcc.{MvccKey}
use scoria_db.Engine.Memtable.Arena.{Arena, Node, node_at}
use scoria_db.Engine.Memtable.Chain.{insert_at}
use scoria_db.Engine.Memtable.SkipList.{node_key_less, key_of, value_of}
use scoria_db.Engine.Memtable.SkipList.Search.{in_front}
use scoria_db.Engine.Memtable.SkipList.Linked.{SameNode}

-- A version: its value, which is nil for an empty one and for a tombstone, and whether it is one.
pub record Entry : Type 0 where
  pub key : MvccKey
  pub value : Option Bytes
  pub deleted : Bool

unfoldable pub entry_of : Node → Entry
unfolding value_of
entry_of n = record { key = key_of n; value = value_of n; deleted = n.deleted }

abbrev pub entries : Arena → List ℕ → List Entry
entries a [] = []
entries a (i ∷ is) = entry_of (node_at i a) ∷ entries a is

-- The version put in front of the first that is not in front of it.
unfoldable pub insert_entry : Entry → List Entry → List Entry
insert_entry e [] = e ∷ []
insert_entry e (x ∷ xs) =
    let rest = insert_entry e xs in if node_key_less x.key e.key then x ∷ rest else e ∷ x ∷ xs

entry_of_same : (n m : Node) → SameNode n m → entry_of n ≡ entry_of m
unfolding entry_of
entry_of_same n m (k, (w, (t, d))) = rw (k, w, t, d) refl

pub entries_cong :
    (a b : Arena) (xs : List ℕ)
    → All (λ i. SameNode (node_at i b) (node_at i a)) xs
    → entries b xs ≡ entries a xs
entries_cong a b [] h = refl
entries_cong a b (x ∷ xs) (e, h) =
    rw (entry_of_same (node_at x b) (node_at x a) e, entries_cong a b xs h) refl

pub entry_of_key : (n : Node) → (entry_of n).key ≡ key_of n
unfolding entry_of
entry_of_key n = refl

pub entries-insert_at :
    (a b : Arena) (n : Node) (new : ℕ) (xs : List ℕ)
    → SameNode (node_at new b) n
    → All (λ i. SameNode (node_at i b) (node_at i a)) xs
    → entries b (insert_at (in_front (key_of n) a) new xs)
      ≡ insert_entry (entry_of n) (entries a xs)
unfolding insert_entry entry_of
entries-insert_at a b n new [] h hs = rw (entry_of_same (node_at new b) n h) refl
entries-insert_at a b n new (x ∷ xs) h (e, hs) = elim (Bool-cases (in_front (key_of n) a x)) [
  | inl y ↦
      rw (y, entry_of_same (node_at x b) (node_at x a) e, entries-insert_at a b n new xs h hs) refl
  | inr q ↦
      rw
        (
          q,
          entry_of_same (node_at x b) (node_at x a) e,
          entry_of_same (node_at new b) n h,
          entries_cong a b xs hs,
        )
        refl
]
