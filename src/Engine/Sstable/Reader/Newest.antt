-- ===== src/Engine/Sstable/Reader/Newest.antt =====
-- What Lookup is to find: of the versions of a key that a snapshot sees, the newest.
use scoria_db.Base.{
  subst, ℕ, ◌≡◌, refl, ◌⊎◌, inl, inr, Bool, true, false, ◌&&◌, Option, none, some, List, [], ◌∷◌,
  arith, Ordering, ltb, leb, if◌then◌else◌, All,
}
use scoria_db.Base.Bytes.{Bytes}
use scoria_db.Keys.{compare_keys}
use scoria_db.Keys.Order.{compare_keys-eq-lex, lex-eq, lex-opposite, lex_refl}
use scoria_db.Mvcc.{commit_ts}
use scoria_db.Engine.Sstable.Entry.{RawEntry}
use scoria_db.Engine.Sstable.Writer.{entry_less}
use scoria_db.Engine.Sstable.Reader.{is_tombstone, strip_tag}

-- A version of the key that the snapshot sees.
unfoldable pub matches : Bytes → ℕ → RawEntry → Bool
matches user_key snapshot_ts e = elim (compare_keys e.key.key user_key) [
  | Ordering.eq ↦ leb (commit_ts e.key) snapshot_ts
  | Ordering.lt ↦ false
  | Ordering.gt ↦ false
]

-- The version with the largest commit timestamp, in whatever order the entries stand.
unfoldable pub newest : Bytes → ℕ → List RawEntry → Option RawEntry
unfolding matches
newest user_key snapshot_ts [] = none
newest user_key snapshot_ts (e ∷ es) = elim (newest user_key snapshot_ts es) [
  | none ↦ if matches user_key snapshot_ts e then some e else none
  | some f ↦
      if matches user_key snapshot_ts e && ltb (commit_ts f.key) (commit_ts e.key)
      then some e
      else some f
]

-- What an entry holds: nothing if it is a deletion, else the value without its tag.
unfoldable pub content : RawEntry → Option Bytes
content e =
    if e.tagged
    then (elim e.value [
      | none ↦ none
      | some value ↦ if is_tombstone value then none else some (strip_tag value)
    ])
    else e.value

module _ (user_key : Bytes) (snapshot_ts : ℕ) where
  newest-cons :
      (x : RawEntry) (es : List RawEntry) (f : RawEntry)
      → newest user_key snapshot_ts (x ∷ es) ≡ some f
      → ((x ≡ f) × (matches user_key snapshot_ts x ≡ true))
        ⊎ (newest user_key snapshot_ts es ≡ some f)
  unfolding newest
  newest-cons x es f e = ground (arith, e)

  pub newest-All :
      (P : RawEntry → Type 0) (es : List RawEntry) (f : RawEntry)
      → All P es
      → newest user_key snapshot_ts es ≡ some f
      → P f
  unfolding newest
  newest-All P [] f h e = ground (arith, e)
  newest-All P (x ∷ es) f (p, h) e = elim (newest-cons x es f e) [
    | inl (same, m) ↦ subst P same p
    | inr later ↦ newest-All P es f h later
  ]

  pub newest-matches :
      (es : List RawEntry) (f : RawEntry)
      → newest user_key snapshot_ts es ≡ some f
      → matches user_key snapshot_ts f ≡ true
  unfolding newest
  newest-matches [] f e = ground (arith, e)
  newest-matches (x ∷ es) f e = elim (newest-cons x es f e) [
    | inl (same, m) ↦ subst (λ y. matches user_key snapshot_ts y ≡ true) same m
    | inr later ↦ newest-matches es f later
  ]

  pub newest-none :
      (es : List RawEntry)
      → All (λ e. matches user_key snapshot_ts e ≡ false) es
      → newest user_key snapshot_ts es ≡ none
  unfolding newest
  newest-none [] h = refl
  newest-none (e ∷ es) (p, h) = ground (arith, p, newest-none es h)

  -- Behind an entry of a larger key no version of the key is left.
  pub passed :
      (e f : RawEntry)
      → compare_keys e.key.key user_key ≡ Ordering.gt
      → entry_less f e ≡ false
      → matches user_key snapshot_ts f ≡ false
  unfolding entry_less matches
  passed e f g s = ground (
    arith,
    g,
    s,
    compare_keys-eq-lex e.key.key user_key,
    compare_keys-eq-lex f.key.key user_key,
    compare_keys-eq-lex f.key.key e.key.key,
    lex-eq f.key.key user_key,
    lex-opposite e.key.key user_key,
  )

  -- A later version of the key is not older.
  pub not_older :
      (e f : RawEntry)
      → compare_keys e.key.key user_key ≡ Ordering.eq
      → matches user_key snapshot_ts f ≡ true
      → entry_less f e ≡ false
      → ltb (commit_ts f.key) (commit_ts e.key) ≡ false
  unfolding entry_less matches commit_ts
  not_older e f g m s = ground (
    arith,
    g,
    m,
    s,
    compare_keys-eq-lex e.key.key user_key,
    compare_keys-eq-lex f.key.key user_key,
    compare_keys-eq-lex f.key.key e.key.key,
    lex-eq f.key.key user_key,
    lex-eq e.key.key user_key,
    lex_refl user_key,
  )
