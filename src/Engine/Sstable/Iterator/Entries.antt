-- ===== src/Engine/Sstable/Iterator/Entries.antt =====
-- The iterator over a table that Finish wrote yields its entries.
use scoria_db.Base.{
  ℕ, zero, suc, ◌<◌, ◌≡◌, refl, true, false, none, List, [], ◌∷◌, ◌++◌, map, arith, ltb, lt→ltb,
  length, All, length-append, ok,
}
use scoria_db.Base.Bytes.{Bytes}
use scoria_db.Mvcc.{MvccKey}
use scoria_db.Engine.Sstable.Entry.{RawEntry, encode_raw}
use scoria_db.Engine.Sstable.Entry.RoundTrip.{stored, read_entry-encode_raw, length-encode_raw}
use scoria_db.Engine.Sstable.Entry.Sequence.{encode_all}
use scoria_db.Engine.Sstable.Index.{IndexEntry}
use scoria_db.Engine.Sstable.Writer.Blocks.{concat}
use scoria_db.Engine.Sstable.Writer.Located.{ReadsBack, AllReadBack, IsStorable}
use scoria_db.Engine.Sstable.Reader.{Reader, strip_tag}
use scoria_db.Engine.Sstable.Reader.Scan.{decode_mvcc_key-writable}
use scoria_db.Engine.Sstable.Reader.Lookups.{Reads}
use scoria_db.Engine.Sstable.Iterator.{
  SstableIterator, next_block, take_entry, next_loop, next, new_iterator, drain,
}

-- What the iterator shows of an entry: the key, and the stored value without its tag.
unfoldable pub pair_of : RawEntry → MvccKey × Bytes
pair_of e = (e.key, strip_tag (stored e))

-- An iterator that is in the middle of a block.
abbrev at_entry : Bytes → List IndexEntry → Bytes → MvccKey → Bytes → SstableIterator
at_entry file ahead rest key val = record {
  bytes = file;
  ahead = ahead;
  rest = rest;
  key = key;
  val = val;
  failure = none;
  ended = false;
}

module _ (file : Bytes) where
  take_entry-entry :
      (ahead : List IndexEntry) (e : RawEntry) (es : List RawEntry) (key : MvccKey) (val : Bytes)
      → IsStorable e
      → take_entry (at_entry file ahead (encode_all (e ∷ es)) key val)
        ≡ ok (at_entry file ahead (encode_all es) e.key (strip_tag (stored e)), true)
  unfolding take_entry encode_all
  take_entry-entry ahead e es key val h =
      rw
        (
          read_entry-encode_raw e (encode_all es) h.writable,
          take_entry,
          decode_mvcc_key-writable e h.writable,
        )
        refl

  has_bytes : (e : RawEntry) (es : List RawEntry) → ltb 0 (length (encode_all (e ∷ es))) ≡ true
  unfolding encode_all
  has_bytes e es =
      lt→ltb 0 (length (encode_raw e ++ encode_all es))
        (omega (arith, length-append {0} (encode_raw e) (encode_all es), length-encode_raw e))

  next_loop-entry :
      (fuel : ℕ) (ahead : List IndexEntry) (e : RawEntry) (es : List RawEntry) (key : MvccKey)
      (val : Bytes)
      → IsStorable e
      → next_loop (suc fuel) (at_entry file ahead (encode_all (e ∷ es)) key val)
        ≡ ok (at_entry file ahead (encode_all es) e.key (strip_tag (stored e)), true)
  unfolding next_loop
  next_loop-entry fuel ahead e es key val h =
      rw (has_bytes e es, next_loop) (take_entry-entry ahead e es key val h)

  next_block-block :
      (entry : IndexEntry) (ahead : List IndexEntry) (g : List RawEntry) (key : MvccKey)
      (val : Bytes)
      → ReadsBack file g entry
      → next_block (at_entry file (entry ∷ ahead) [] key val)
        ≡ ok (at_entry file ahead (encode_all g) key val, true)
  unfolding next_block
  next_block-block entry ahead g key val r = rw (r.block, next_block) refl

  -- Next within a block, at its end and at the end of the table.
  next-entry :
      (ahead : List IndexEntry) (e : RawEntry) (es : List RawEntry) (key : MvccKey) (val : Bytes)
      → IsStorable e
      → next (at_entry file ahead (encode_all (e ∷ es)) key val)
        ≡ ok (at_entry file ahead (encode_all es) e.key (strip_tag (stored e)), true)
  unfolding next
  next-entry ahead e es key val h = next_loop-entry (length ahead) ahead e es key val h

  next-block :
      (entry : IndexEntry) (ahead : List IndexEntry) (e : RawEntry) (es : List RawEntry)
      (key : MvccKey) (val : Bytes)
      → ReadsBack file (e ∷ es) entry
      → IsStorable e
      → next (at_entry file (entry ∷ ahead) [] key val)
        ≡ ok (at_entry file ahead (encode_all es) e.key (strip_tag (stored e)), true)
  unfolding next next_loop
  next-block entry ahead e es key val r h =
      rw (next_block-block entry ahead (e ∷ es) key val r, next_loop)
        (next_loop-entry (length ahead) ahead e es key val h)

  drain-round :
      (fuel : ℕ) (it it' : SstableIterator) (pairs : List (MvccKey × Bytes))
      → next it ≡ ok (it', true)
      → drain fuel it' ≡ ok (pairs, none)
      → drain (suc fuel) it ≡ ok ((it'.key, it'.val) ∷ pairs, none)
  unfolding drain
  drain-round fuel it it' pairs e d = rw (e, drain, d) refl

  drain-end :
      (fuel : ℕ) (key : MvccKey) (val : Bytes)
      → drain (suc fuel) (at_entry file [] [] key val) ≡ ok ([], none)
  unfolding drain next next_loop next_block
  drain-end fuel key val = refl

  -- From the middle of a block the loop of a caller sees the entries that are left, and no error.
  drain-entries :
      (es : List RawEntry) (groups : List (List RawEntry)) (ahead : List IndexEntry) (key : MvccKey)
      (val : Bytes) (fuel : ℕ)
      → AllReadBack file groups ahead
      → All (λ g. 0 < length g) groups
      → All IsStorable es
      → All (λ g. All IsStorable g) groups
      → length (es ++ concat groups) < fuel
      → drain fuel (at_entry file ahead (encode_all es) key val)
        ≡ ok (map pair_of (es ++ concat groups), none)
  unfolding encode_all concat pair_of
  drain-entries es groups ahead key val zero r n h hs f = absurd (omega (arith, f))
  drain-entries (e ∷ es) groups ahead key val (suc fuel) r n (h, more) hs f =
      drain-round fuel (at_entry file ahead (encode_all (e ∷ es)) key val) _ _
        (next-entry ahead e es key val h)
        (drain-entries es groups ahead e.key (strip_tag (stored e)) fuel r n more hs
          (omega (arith, f)))
  drain-entries [] [] [] key val (suc fuel) r n h hs f = drain-end fuel key val
  drain-entries [] [] (entry ∷ ahead) key val (suc fuel) r n h hs f = absurd r
  drain-entries [] (g ∷ gs) [] key val (suc fuel) r n h hs f = absurd r
  drain-entries [] ([] ∷ gs) (entry ∷ ahead) key val (suc fuel) r (n, ns) h hs f =
      absurd (omega (arith, n))
  drain-entries [] ((e ∷ es) ∷ gs) (entry ∷ ahead) key val (suc fuel) (r, rs) (n, ns) h
        ((p, ps), hs) f =
      drain-round fuel (at_entry file (entry ∷ ahead) [] key val) _ _
        (next-block entry ahead e es key val r p)
        (drain-entries es gs ahead e.key (strip_tag (stored e)) fuel rs ns ps hs (omega (arith, f)))

abbrev no_key : MvccKey
no_key = record { key = []; timestamp = 0 }

new_iterator-first :
    (r : Reader) (entry : IndexEntry) (ahead : List IndexEntry) (g : List RawEntry)
    → r.index_entries ≡ entry ∷ ahead
    → ReadsBack r.bytes g entry
    → new_iterator r ≡ ok (ok (at_entry r.bytes ahead (encode_all g) no_key []))
unfolding new_iterator
new_iterator-first r entry ahead g e b =
    rw (e, new_iterator, next_block-block r.bytes entry ahead g no_key [] b) refl

-- Along the parts of the table.
pub drain-parts :
    (r : Reader) (groups : List (List RawEntry)) (index : List IndexEntry) (fuel : ℕ)
    → r.index_entries ≡ index
    → AllReadBack r.bytes groups index
    → All (λ g. 0 < length g) groups
    → All (λ g. All IsStorable g) groups
    → 0 < length groups
    → length (concat groups) < fuel
    → (it : SstableIterator) × (new_iterator r ≡ ok (ok it))
      × (drain fuel it ≡ ok (map pair_of (concat groups), none))
unfolding concat
drain-parts r [] index fuel e b n h p f = absurd (omega (arith, p))
drain-parts r (g ∷ gs) [] fuel e b n h p f = absurd b
drain-parts r (g ∷ gs) (entry ∷ ahead) fuel e (b, bs) (n, ns) (h, hs) p f = (
  at_entry r.bytes ahead (encode_all g) no_key [],
  new_iterator-first r entry ahead g e b,
  drain-entries r.bytes g gs ahead no_key [] fuel bs ns h hs f,
)

-- The iterator over a reader whose index and blocks are those of some entries yields their keys and
-- values in their order, each once, and no error.
pub drain-new_iterator :
    (r : Reader) (groups : List (List RawEntry)) (fuel : ℕ)
    → Reads r groups
    → length (concat groups) < fuel
    → (it : SstableIterator) × (new_iterator r ≡ ok (ok it))
      × (drain fuel it ≡ ok (map pair_of (concat groups), none))
drain-new_iterator r groups fuel h f =
    drain-parts r groups r.index_entries fuel refl h.read_back h.not_empty h.storable h.some_group f
