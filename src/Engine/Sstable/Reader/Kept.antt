-- ===== src/Engine/Sstable/Reader/Kept.antt =====
-- The loop of Lookup over the entries of a sorted block keeps the newest version.
use scoria_db.Base.{
  ℕ, ◌≡◌, refl, ◌≢◌, inl, inr, Bool, true, false, Option, none, some, List, [], ◌∷◌, arith,
  Ordering, if◌then◌else◌, Bool-cases, Option-cases, All, Ordering-cases, All-map,
}
use scoria_db.Base.Bytes.{Bytes}
use scoria_db.Keys.{compare_keys}
use scoria_db.Mvcc.{MvccKey}
use scoria_db.Engine.Sstable.Writer.Appended.{IsSorted}
use scoria_db.Engine.Sstable.Entry.{RawEntry, inline_value, verbatim_value, is_valid_value_tag}
use scoria_db.Engine.Sstable.Entry.RoundTrip.{stored}
use scoria_db.Engine.Sstable.Writer.{entry_less}
use scoria_db.Engine.Sstable.Reader.{
  Best, no_best, note_version, found_value, is_tombstone, strip_tag,
}
use scoria_db.Engine.Sstable.Reader.Scan.{scan_entries}
use scoria_db.Engine.Sstable.Reader.Newest.{
  matches, newest, content, newest-All, newest-matches, newest-none, passed, not_older,
}

module _ (user_key : Bytes) (snapshot_ts : ℕ) where
  -- What the loop keeps of a version that it sees.
  unfoldable pub best_of : RawEntry → Best
  best_of f = record {
    val = if is_tombstone (stored f) then stored f else strip_tag (stored f);
    found = true;
    tombstone = is_tombstone (stored f);
  }

  -- The version that was found, else what was there before.
  unfoldable pub kept_or : Best → Option RawEntry → Best
  unfolding best_of
  kept_or best none = best
  kept_or best (some f) = best_of f

  note_version-matches :
      (e : RawEntry) (best : Best)
      → compare_keys e.key.key user_key ≡ Ordering.eq
      → note_version snapshot_ts e.key (stored e) best
        ≡ (if matches user_key snapshot_ts e then best_of e else best)
  unfolding note_version matches best_of
  note_version-matches e best h = ground (arith, h)

  pub no_match :
      (e : RawEntry)
      → compare_keys e.key.key user_key ≢ Ordering.eq
      → matches user_key snapshot_ts e ≡ false
  unfolding matches
  no_match e h = ground (arith, h)

  pub newest-skip :
      (e : RawEntry) (es : List RawEntry)
      → matches user_key snapshot_ts e ≡ false
      → newest user_key snapshot_ts (e ∷ es) ≡ newest user_key snapshot_ts es
  unfolding newest
  newest-skip e es h = ground (arith, h)

  -- The newest version among an entry of the key and the later ones.
  newest-version :
      (e : RawEntry) (es : List RawEntry) (best : Best)
      → compare_keys e.key.key user_key ≡ Ordering.eq
      → All (λ f. entry_less f e ≡ false) es
      → kept_or best (newest user_key snapshot_ts (e ∷ es))
        ≡ kept_or (note_version snapshot_ts e.key (stored e) best) (newest user_key snapshot_ts es)
  unfolding newest kept_or
  newest-version e es best g h = elim (Option-cases (newest user_key snapshot_ts es)) [
    | inl q ↦ ground (arith, q, note_version-matches e best g)
    | inr (f, q) ↦
        let young =
          not_older user_key snapshot_ts e f g (newest-matches user_key snapshot_ts es f q)
            (newest-All user_key snapshot_ts (λ f. entry_less f e ≡ false) es f h q) in
        ground (arith, q, young)
  ]

  -- On sorted entries the loop keeps the newest version that the snapshot sees.
  pub scan_entries-newest :
      (es : List RawEntry) (best : Best)
      → IsSorted es
      → scan_entries user_key snapshot_ts es best ≡ kept_or best (newest user_key snapshot_ts es)
  unfolding scan_entries newest kept_or
  scan_entries-newest [] best h = refl
  scan_entries-newest (e ∷ es) best (h, hs) =
      elim (Ordering-cases (compare_keys e.key.key user_key)) [
        | inl lt ↦
            rw (lt, scan_entries, newest-skip e es (no_match e (λ q. ground (arith, lt, q))))
              (scan_entries-newest es best hs)
        | inr (inl eq) ↦
            rw (eq, scan_entries, newest-version e es best eq h)
              (scan_entries-newest es (note_version snapshot_ts e.key (stored e) best) hs)
        | inr (inr gt) ↦
            let none_left =
              newest-none user_key snapshot_ts es
                (All-map (λ f s. passed user_key snapshot_ts e f gt s) es h) in
            rw
              (
                gt,
                scan_entries,
                newest-skip e es (no_match e (λ q. ground (arith, gt, q))),
                none_left,
              )
              refl
      ]

  content_shown :
      (k : MvccKey) (tagged : Bool) (value : Option Bytes)
      → let f : RawEntry = record { key = k; value = value; tagged = tagged } in
        found_value (best_of f) ≡ content f
  unfolding found_value best_of content stored inline_value verbatim_value strip_tag is_tombstone
      is_valid_value_tag
  content_shown k true none = refl
  content_shown k true (some value) = elim (Bool-cases (is_tombstone value)) [
    | inl e ↦ rw (e, is_tombstone) refl
    | inr e ↦ rw (e, is_tombstone) refl
  ]
  content_shown k false none = refl
  content_shown k false (some []) = refl
  content_shown k false (some (b ∷ value)) = refl

  -- What is returned of a version is what its entry holds.
  pub found_value-best_of : (f : RawEntry) → found_value (best_of f) ≡ content f
  found_value-best_of f = content_shown f.key f.tagged f.value

-- The value of a key in a snapshot: what its newest version holds.
unfoldable pub value_at : Bytes → ℕ → List RawEntry → Option Bytes
unfolding newest content
value_at user_key snapshot_ts es = elim (newest user_key snapshot_ts es) [
  | none ↦ none
  | some f ↦ content f
]

pub found_value-scan_entries :
    (user_key : Bytes) (snapshot_ts : ℕ) (es : List RawEntry)
    → IsSorted es
    → found_value (scan_entries user_key snapshot_ts es no_best) ≡ value_at user_key snapshot_ts es
unfolding value_at found_value kept_or
found_value-scan_entries user_key snapshot_ts es h =
    rw (scan_entries-newest user_key snapshot_ts es no_best h)
      (elim (Option-cases (newest user_key snapshot_ts es)) [
        | inl q ↦ rw (q, kept_or, value_at) refl
        | inr (f, q) ↦ rw (q, kept_or, value_at) (found_value-best_of user_key snapshot_ts f)
      ])
