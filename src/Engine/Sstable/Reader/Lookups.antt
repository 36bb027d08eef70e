-- ===== src/Engine/Sstable/Reader/Lookups.antt =====
-- Lookup on a reader whose index and blocks are those of sorted entries.
use scoria_db.Base.{
  ℕ, suc, ◌<◌, ◌≡◌, refl, sym, ap, ◌∙◌, Option, some, List, [], ◌∷◌, arith, Ordering, length, All,
  Result, ok, All-map,
}
use scoria_db.Base.Bytes.{Bytes}
use scoria_db.Keys.Order.{lex}
use scoria_db.Engine.Sstable.Entry.{RawEntry}
use scoria_db.Engine.Sstable.Entry.Sequence.{encode_all, length-encode_all}
use scoria_db.Engine.Sstable.Index.{IndexEntry}
use scoria_db.Engine.Sstable.Writer.{first_user_key}
use scoria_db.Engine.Sstable.Writer.Appended.{IsSorted}
use scoria_db.Engine.Sstable.Writer.Blocks.{concat}
use scoria_db.Engine.Sstable.Writer.Located.{ReadsBack, AllReadBack, IsStorable}
use scoria_db.Engine.Sstable.Reader.{Reader, no_best, choose_block, lookup_block}
use scoria_db.Engine.Sstable.Reader.Newest.{newest}
use scoria_db.Engine.Sstable.Reader.Kept.{value_at, found_value-scan_entries}
use scoria_db.Engine.Sstable.Reader.Scan.{scan_block-encode_all}
use scoria_db.Engine.Sstable.Reader.Choice.{IsAscending, choose_block-last_not_above}
use scoria_db.Engine.Sstable.Reader.Found.{IsSeparated, last_not_above-IsChosen}

first_below :
    (g : List RawEntry) (key : Bytes)
    → 0 < length g
    → All (λ e. lex e.key.key key ≡ Ordering.lt) g
    → lex (first_user_key g) key ≡ Ordering.lt
unfolding first_user_key
first_below [] key n h = absurd (omega (arith, n))
first_below (e ∷ g) key n (p, h) = p

-- The keys of the index grow, as its blocks are separated.
AllReadBack-IsAscending :
    (file : Bytes) (groups : List (List RawEntry)) (index : List IndexEntry)
    → AllReadBack file groups index
    → IsSeparated groups
    → All (λ g. 0 < length g) groups
    → IsAscending index
AllReadBack-IsAscending file [] [] r s n = tt
AllReadBack-IsAscending file [] (e ∷ es) r s n = absurd r
AllReadBack-IsAscending file (g ∷ gs) [] r s n = absurd r
AllReadBack-IsAscending file (g ∷ gs) (e ∷ []) r s n = tt
AllReadBack-IsAscending file (g ∷ []) (e ∷ f ∷ es) (r, rs) s n = absurd rs
AllReadBack-IsAscending file (g ∷ h ∷ gs) (e ∷ f ∷ es) (r, (r', rs)) (s, ss) (n, ns) = (
  rw (r.key, r'.key) (first_below g (first_user_key h) n s),
  AllReadBack-IsAscending file (h ∷ gs) (f ∷ es) (r', rs) ss ns,
)

value_at-newest :
    (user_key : Bytes) (snapshot_ts : ℕ) (es fs : List RawEntry)
    → newest user_key snapshot_ts es ≡ newest user_key snapshot_ts fs
    → value_at user_key snapshot_ts es ≡ value_at user_key snapshot_ts fs
unfolding value_at
value_at-newest user_key snapshot_ts es fs e = rw (e, value_at) refl

-- What Lookup does with the block of an index entry.
lookup_block-read :
    (r : Reader) (user_key : Bytes) (snapshot_ts : ℕ) (entry : IndexEntry) (group : List RawEntry)
    → choose_block user_key r.index_entries ≡ some entry
    → ReadsBack r.bytes group entry
    → IsSorted group
    → All IsStorable group
    → lookup_block r user_key snapshot_ts ≡ ok (value_at user_key snapshot_ts group)
unfolding lookup_block
lookup_block-read r user_key snapshot_ts entry group c b s h =
    let scanned =
      scan_block-encode_all user_key snapshot_ts group (suc (length (encode_all group))) no_best
        (All-map (λ e q. q.writable) group h) (omega (arith, length-encode_all group)) in
    rw (c, lookup_block, b.block, scanned, found_value-scan_entries user_key snapshot_ts group s)
      refl

-- A reader whose index and blocks are those of sorted entries, of which no user key stands in two
-- blocks.
pub record Reads (r : Reader) (groups : List (List RawEntry)) : Type 0 where
  pub read_back : AllReadBack r.bytes groups r.index_entries
  pub separated : IsSeparated groups
  pub sorted : IsSorted (concat groups)
  pub not_empty : All (λ g. 0 < length g) groups
  pub storable : All (λ g. All IsStorable g) groups
  pub some_group : 0 < length groups

-- Behind the filters Lookup finds the value of the newest version that the snapshot sees, and nothing
-- if that is a deletion or if there is none.
pub lookup_block-value_at :
    (r : Reader) (groups : List (List RawEntry))
    → Reads r groups
    → (user_key : Bytes) (snapshot_ts : ℕ)
    → lookup_block r user_key snapshot_ts ≡ ok (value_at user_key snapshot_ts (concat groups))
lookup_block-value_at r groups h user_key snapshot_ts =
    let (entry, group, c) =
      last_not_above-IsChosen user_key snapshot_ts r.bytes groups r.index_entries h.read_back
        h.separated h.sorted h.not_empty h.storable h.some_group in
    let ascending =
      AllReadBack-IsAscending r.bytes groups r.index_entries h.read_back h.separated h.not_empty in
    lookup_block-read r user_key snapshot_ts entry group
      (choose_block-last_not_above user_key r.index_entries ascending ∙ c.chosen) c.reads_back
      c.sorted c.all
    ∙ ap {B = Result _ (Option Bytes)} (λ v. ok v)
        (value_at-newest user_key snapshot_ts group (concat groups) (sym c.same))
