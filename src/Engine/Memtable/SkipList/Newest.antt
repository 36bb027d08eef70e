-- ===== src/Engine/Memtable/SkipList/Newest.antt =====
-- What a read at a snapshot is to return, whatever the order of the versions.
use scoria_db.Base.{
  subst, ℕ, ◌≡◌, refl, sym, inl, inr, Bool, true, false, ◌&&◌, Option, none, some, List, [], ◌∷◌,
  leb, if◌then◌else◌, Bool-cases, Option-cases, All,
}
use scoria_db.Base.Bytes.{Bytes}
use scoria_db.Base.Map.{bytes_equal}
use scoria_db.Mvcc.{MvccKey, commit_ts}
use scoria_db.Engine.Memtable.Arena.{Arena, node_at}
use scoria_db.Engine.Memtable.SkipList.Search.{keys}
use scoria_db.Engine.Memtable.SkipList.Entries.{entry_of_key, Entry, entries, entry_of}

-- A version of the user key, committed at the snapshot of `key` or before.
unfoldable pub visible : MvccKey → Entry → Bool
visible key e = bytes_equal e.key.key key.key && leb (commit_ts e.key) (commit_ts key)

-- The one of two with the greater commit timestamp.
unfoldable pub newer : Entry → Entry → Entry
newer e x = if leb (commit_ts e.key) (commit_ts x.key) then x else e

unfoldable pub newest : MvccKey → List Entry → Option Entry
unfolding visible newer
newest key [] = none
newest key (e ∷ es) =
    let rest = newest key es in
    if visible key e then elim rest [ none ↦ some e | some x ↦ some (newer e x) ] else rest

-- A tombstone hides the older versions.
unfoldable pub outcome : Option Entry → Option (Option Bytes)
outcome none = none
outcome (some e) = if e.deleted then none else some e.value

unfoldable pub newest_value : MvccKey → List Entry → Option (Option Bytes)
unfolding outcome newest
newest_value key es = outcome (newest key es)

-- What holds of the newest version, if there is one.
abbrev pub OfNewest : (Entry → Type 0) → Option Entry → Type 0
OfNewest P none = Unit {0}
OfNewest P (some x) = P x

module _ (key : MvccKey) (a : Arena) where
  abbrev pub IsFound : (MvccKey → Type 0) → Entry → Type 0
  IsFound P x = P x.key × (visible key x ≡ true)

  newer-IsFound :
      (P : MvccKey → Type 0) (e x : Entry) → IsFound P e → IsFound P x → IsFound P (newer e x)
  unfolding newer
  newer-IsFound P e x p q = elim (Bool-cases (leb (commit_ts e.key) (commit_ts x.key))) [
    | inl y ↦ rw (newer, y) q
    | inr n ↦ rw (newer, n) p
  ]

  -- The newest has any property that all keys have, and is visible.
  pub newest-All :
      (P : MvccKey → Type 0) (xs : List ℕ)
      → All (λ i. P (keys a i)) xs
      → OfNewest (IsFound P) (newest key (entries a xs))
  unfolding newest
  newest-All P [] h = tt
  newest-All P (i ∷ is) (p, h) =
      let ih : OfNewest (IsFound P) (newest key (entries a is)) = newest-All P is h in
      elim (Bool-cases (visible key (entry_of (node_at i a)))) [
        | inl y ↦
            let here : IsFound P (entry_of (node_at i a)) =
              (subst P (sym (entry_of_key (node_at i a))) p, y) in
            elim (Option-cases (newest key (entries a is))) [
              | inl e ↦ rw (newest, y, e) here
              | inr (x, e) ↦
                  rw (newest, y, e)
                    (newer-IsFound P (entry_of (node_at i a)) x here
                      (subst (OfNewest (IsFound P)) e ih))
            ]
        | inr n ↦ rw (newest, n) ih
      ]

  -- Where no version is visible there is no newest.
  pub newest-none :
      (xs : List ℕ)
      → All (λ i. visible key (entry_of (node_at i a)) ≡ false) xs
      → newest key (entries a xs) ≡ none
  unfolding newest
  newest-none [] h = refl
  newest-none (i ∷ is) (n, h) = rw (newest, n) (newest-none is h)
