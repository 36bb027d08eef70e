-- ===== src/Engine/Memtable/SkipList/Insertion.antt =====
-- The newest version after an insertion.
use scoria_db.Base.{
  subst, ℕ, ◌<◌, ◌≡◌, refl, ap, inl, inr, true, some, List, [], ◌∷◌, arith, leb, Bool-cases,
  Option-cases, All,
}
use scoria_db.Mvcc.{MvccKey, commit_ts}
use scoria_db.Engine.Memtable.SkipList.{node_key_less}
use scoria_db.Engine.Memtable.SkipList.Entries.{Entry, insert_entry}
use scoria_db.Engine.Memtable.SkipList.Newest.{visible, newer, newest, OfNewest}

-- All versions that a key sees are older than a timestamp.
abbrev pub OlderThan : MvccKey → ℕ → List Entry → Type 0
OlderThan key ts = All (λ x. visible key x ≡ true → commit_ts x.key < ts)

module _ (key : MvccKey) (e : Entry) (seen : visible key e ≡ true) where
  newer-older : (x : Entry) → commit_ts x.key < commit_ts e.key → newer e x ≡ e
  unfolding newer
  newer-older x h = ground (arith, h)

  newer-newer : (x : Entry) → commit_ts x.key < commit_ts e.key → newer x e ≡ e
  unfolding newer
  newer-newer x h = ground (arith, h)

  newest-OlderThan :
      (es : List Entry)
      → OlderThan key (commit_ts e.key) es
      → OfNewest (λ x. commit_ts x.key < commit_ts e.key) (newest key es)
  unfolding newest newer
  newest-OlderThan [] h = tt
  newest-OlderThan (x ∷ xs) (p, h) =
      let ih = newest-OlderThan xs h in
      elim (Bool-cases (visible key x)) [
        | inr n ↦ rw (newest, n) ih
        | inl y ↦ elim (Option-cases (newest key xs)) [
          | inl z ↦ rw (newest, y, z) (p y)
          | inr (w, z) ↦
              let old : commit_ts w.key < commit_ts e.key =
                subst (OfNewest (λ q. commit_ts q.key < commit_ts e.key)) z ih in
              rw (newest, y, z)
                (elim (Bool-cases (leb (commit_ts x.key) (commit_ts w.key))) [
                  | inl l ↦ rw (newer, l) old
                  | inr l ↦ rw (newer, l) (p y)
                ])
        ]
      ]

  newest-front :
      (es : List Entry) → OlderThan key (commit_ts e.key) es → newest key (e ∷ es) ≡ some e
  unfolding newest
  newest-front es h = elim (Option-cases (newest key es)) [
    | inl z ↦ rw (newest, seen, z) refl
    | inr (w, z) ↦
        let old : commit_ts w.key < commit_ts e.key =
          subst (OfNewest (λ q. commit_ts q.key < commit_ts e.key)) z (newest-OlderThan es h) in
        rw (newest, seen, z) (ap some (newer-older w old))
  ]

  -- A version that is newer than all that the key sees is the newest once it is put in.
  pub newest-insert_entry :
      (es : List Entry)
      → OlderThan key (commit_ts e.key) es
      → newest key (insert_entry e es) ≡ some e
  unfolding insert_entry newest
  newest-insert_entry [] h = rw (newest, seen) refl
  newest-insert_entry (x ∷ xs) (p, h) = elim (Bool-cases (node_key_less x.key e.key)) [
    | inr n ↦ rw n (newest-front (x ∷ xs) (p, h))
    | inl y ↦ rw y (elim (Bool-cases (visible key x)) [
      | inl z ↦ rw (newest, z, newest-insert_entry xs h) (ap some (newer-newer x (p z)))
      | inr z ↦ rw (newest, z) (newest-insert_entry xs h)
    ])
  ]
