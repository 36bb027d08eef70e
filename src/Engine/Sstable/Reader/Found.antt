-- ===== src/Engine/Sstable/Reader/Found.antt =====
-- The block that is chosen holds every version of the key, if no user key stands in two blocks.
use scoria_db.Base.{
  ℕ, ◌<◌, ◌≡◌, refl, ◌∙◌, ◌≢◌, inl, inr, false, some, List, [], ◌∷◌, ◌++◌, arith, Ordering, length,
  All, All-append_left, All-map, Ordering-cases,
}
use scoria_db.Base.Bytes.{Bytes}
use scoria_db.Keys.{compare_keys}
use scoria_db.Keys.Order.{lex, lex-eq, lex-opposite, compare_keys-eq-lex}
use scoria_db.Engine.Sstable.Writer.Appended.{IsSorted}
use scoria_db.Engine.Sstable.Entry.{RawEntry}
use scoria_db.Engine.Sstable.Index.{IndexEntry}
use scoria_db.Engine.Sstable.Writer.{entry_less, first_user_key}
use scoria_db.Engine.Sstable.Writer.Blocks.{concat}
use scoria_db.Engine.Sstable.Writer.Located.{ReadsBack, AllReadBack}
use scoria_db.Engine.Sstable.Reader.Newest.{matches, newest, newest-none, passed}
use scoria_db.Engine.Sstable.Reader.Kept.{no_match, newest-skip}
use scoria_db.Engine.Sstable.Reader.Choice.{last_not_above}

-- The keys of a block are below the first key of the next.
abbrev pub IsSeparated : List (List RawEntry) → Type 0
IsSeparated [] = Unit
IsSeparated (g ∷ []) = Unit
IsSeparated (g ∷ h ∷ gs) =
    All (λ e. lex e.key.key (first_user_key h) ≡ Ordering.lt) g × IsSeparated (h ∷ gs)

IsSorted-left : (xs ys : List RawEntry) → IsSorted (xs ++ ys) → IsSorted xs
IsSorted-left [] ys h = tt
IsSorted-left (x ∷ xs) ys (p, h) =
    (All-append_left (λ f. entry_less f x ≡ false) xs ys p, IsSorted-left xs ys h)

IsSorted-right : (xs ys : List RawEntry) → IsSorted (xs ++ ys) → IsSorted ys
IsSorted-right [] ys h = h
IsSorted-right (x ∷ xs) ys (p, h) = IsSorted-right xs ys h

module _ (user_key : Bytes) (snapshot_ts : ℕ) where
  abbrev Misses : RawEntry → Type 0
  Misses e = matches user_key snapshot_ts e ≡ false

  value_at-right :
      (xs ys : List RawEntry)
      → All Misses xs
      → newest user_key snapshot_ts (xs ++ ys) ≡ newest user_key snapshot_ts ys
  value_at-right [] ys h = refl
  value_at-right (x ∷ xs) ys (p, h) =
      newest-skip user_key snapshot_ts x (xs ++ ys) p ∙ value_at-right xs ys h

  value_at-left :
      (xs ys : List RawEntry)
      → All Misses ys
      → newest user_key snapshot_ts (xs ++ ys) ≡ newest user_key snapshot_ts xs
  unfolding newest
  value_at-left [] ys h = newest-none user_key snapshot_ts ys h
  value_at-left (x ∷ xs) ys h = rw (value_at-left xs ys h) refl

  -- An entry below the first key of a block that is not above the key.
  Misses-below :
      (first : Bytes) (e : RawEntry)
      → lex first user_key ≢ Ordering.gt
      → lex e.key.key first ≡ Ordering.lt
      → Misses e
  unfolding matches
  Misses-below first e p q = ground (
    arith,
    p,
    q,
    compare_keys-eq-lex e.key.key user_key,
    lex-eq e.key.key user_key,
    lex-opposite user_key first,
  )

  -- The entries of blocks whose first key is above the key.
  Misses-above :
      (h : List RawEntry) (rest : List RawEntry)
      → 0 < length h
      → lex (first_user_key h) user_key ≡ Ordering.gt
      → IsSorted (h ++ rest)
      → All Misses (h ++ rest)
  unfolding first_user_key
  Misses-above [] rest n g s = absurd (omega (arith, n))
  Misses-above (x ∷ h) rest n g (p, s) =
      let over : compare_keys x.key.key user_key ≡ Ordering.gt = rw compare_keys-eq-lex g in
      (
        no_match user_key snapshot_ts x (λ q. ground (arith, over, q)),
        All-map (λ f q. passed user_key snapshot_ts x f over q) (h ++ rest) p,
      )

  -- What is known of the chosen entry of the index and of the block that it points to.
  pub record IsChosen (P : RawEntry → Type 0) (file : Bytes) (groups : List (List RawEntry))
      (index : List IndexEntry) (entry : IndexEntry) (group : List RawEntry) : Type 0 where
    pub chosen : last_not_above user_key index ≡ some entry
    pub reads_back : ReadsBack file group entry
    pub sorted : IsSorted group
    pub all : All P group
    pub same : newest user_key snapshot_ts (concat groups) ≡ newest user_key snapshot_ts group

  -- A block in front whose keys are all below the next block's is not the one.
  IsChosen-later :
      {P : RawEntry → Type 0} (file : Bytes) (g h : List RawEntry) (gs : List (List RawEntry))
      (e f entry : IndexEntry) (es : List IndexEntry) (group : List RawEntry)
      → ReadsBack file h f
      → lex f.key user_key ≢ Ordering.gt
      → All (λ e. lex e.key.key (first_user_key h) ≡ Ordering.lt) g
      → IsChosen P file (h ∷ gs) (f ∷ es) entry group
      → IsChosen P file (g ∷ h ∷ gs) (e ∷ f ∷ es) entry group
  unfolding last_not_above concat
  IsChosen-later file g h gs e f entry es group r low apart c = record {
    chosen = elim (Ordering-cases (lex f.key user_key)) [
      | inl lt ↦ rw (lt, last_not_above) c.chosen
      | inr (inl eq) ↦ rw (eq, last_not_above) c.chosen
      | inr (inr gt) ↦ absurd (low gt)
    ];
    reads_back = c.reads_back;
    sorted = c.sorted;
    all = c.all;
    same =
        value_at-right g (h ++ concat gs)
          (All-map (λ x q. Misses-below (first_user_key h) x (λ w. low (rw r.key w)) q) g apart)
        ∙ c.same;
  }

  -- The block in front of one whose first key is above the key.
  IsChosen-front :
      {P : RawEntry → Type 0} (file : Bytes) (g h : List RawEntry) (gs : List (List RawEntry))
      (e f : IndexEntry) (es : List IndexEntry)
      → ReadsBack file g e
      → ReadsBack file h f
      → lex f.key user_key ≡ Ordering.gt
      → 0 < length h
      → IsSorted (g ++ (h ++ concat gs))
      → All P g
      → IsChosen P file (g ∷ h ∷ gs) (e ∷ f ∷ es) e g
  unfolding last_not_above concat
  IsChosen-front file g h gs e f es r s over n sorted all = record {
    chosen = rw (over, last_not_above) refl;
    reads_back = r;
    sorted = IsSorted-left g (h ++ concat gs) sorted;
    all = all;
    same = value_at-left g (h ++ concat gs) (
        Misses-above h (concat gs) n (rw (← s.key) over)
          (IsSorted-right g (h ++ concat gs) sorted));
  }

  pub last_not_above-IsChosen :
      {P : RawEntry → Type 0} (file : Bytes) (groups : List (List RawEntry))
      (index : List IndexEntry)
      → AllReadBack file groups index
      → IsSeparated groups
      → IsSorted (concat groups)
      → All (λ g. 0 < length g) groups
      → All (λ g. All P g) groups
      → 0 < length groups
      → (entry : IndexEntry) × (group : List RawEntry) × IsChosen P file groups index entry group
  unfolding concat last_not_above
  last_not_above-IsChosen file [] [] r s o n a p = absurd (omega (arith, p))
  last_not_above-IsChosen file [] (e ∷ es) r s o n a p = absurd r
  last_not_above-IsChosen file (g ∷ gs) [] r s o n a p = absurd r
  last_not_above-IsChosen file (g ∷ []) (e ∷ []) (r, rs) s o n (a, more) p = (
    e,
    g,
    record {
      chosen = refl;
      reads_back = r;
      sorted = IsSorted-left g [] o;
      all = a;
      same = value_at-left g [] tt;
    },
  )
  last_not_above-IsChosen file (g ∷ []) (e ∷ f ∷ es) (r, rs) s o n a p = absurd rs
  last_not_above-IsChosen file (g ∷ h ∷ gs) (e ∷ []) (r, rs) s o n a p = absurd rs
  last_not_above-IsChosen file (g ∷ h ∷ gs) (e ∷ f ∷ es) (r, (r', rs)) (s, ss) o (n, (n', ns))
        (a, (a', more)) p =
      let (entry, group, c) =
        last_not_above-IsChosen file (h ∷ gs) (f ∷ es) (r', rs) ss
          (IsSorted-right g (h ++ concat gs) o) (n', ns) (a', more) (omega arith) in
      elim (Ordering-cases (lex f.key user_key)) [
        | inr (inr gt) ↦ (e, g, IsChosen-front file g h gs e f es r r' gt n' o a)
        | inr (inl eq) ↦ (
          entry,
          group,
          IsChosen-later file g h gs e f entry es group r' (λ q. ground (arith, eq, q)) s c,
        )
        | inl lt ↦ (
          entry,
          group,
          IsChosen-later file g h gs e f entry es group r' (λ q. ground (arith, lt, q)) s c,
        )
      ]
