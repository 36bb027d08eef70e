-- ===== src/Engine/Sstable/Table/Composed.antt =====
-- What is written by Writer is what Reader and SSTableIterator find.
use scoria_db.Base.{
  subst, ℕ, ◌+◌, ◌^◌, ◌<◌, ◌≡◌, refl, sym, ap, ◌∙◌, Bool, true, false, none, some, List, [], ◌++◌,
  map, arith, length, All, ok, length-Perm, All-map, All-Perm,
}
use scoria_db.Base.Bytes.{Bytes}
use scoria_db.Mvcc.{MvccKey, commit_ts}
use scoria_db.Engine.Sstable.Bloom.{BloomFilter, encode, may_contain}
use scoria_db.Engine.Sstable.Bloom.Members.{may_contain-some}
use scoria_db.Engine.Sstable.Entry.{RawEntry}
use scoria_db.Engine.Sstable.Index.{IndexEntry, encode_index}
use scoria_db.Engine.Sstable.Footer.{footer_size}
use scoria_db.Engine.Sstable.Writer.{
  Writer, new_writer, entry_less, write_blocks, write_footer, footer_of, finish_sorted, finish,
}
use scoria_db.Engine.Sstable.Writer.Appended.{
  IsSorted, IsAbove, IsWriter, append_all-IsWriter, new_writer-IsWriter,
}
use scoria_db.Engine.Sstable.Writer.Blocks.{block_of}
use scoria_db.Engine.Sstable.Writer.Located.{IsStorable, AreWritten, write_blocks-AreWritten}
use scoria_db.Engine.Sstable.Reader.{Reader, open_table, lookup, above_range}
use scoria_db.Engine.Sstable.Reader.Sections.{length-write_footer, read_key}
use scoria_db.Engine.Sstable.Reader.Written.{IsFile, open_table-write_footer}
use scoria_db.Engine.Sstable.Reader.Found.{IsSeparated}
use scoria_db.Engine.Sstable.Reader.Lookups.{Reads}
use scoria_db.Engine.Sstable.Reader.Filters.{Admits, lookup-value_at}
use scoria_db.Engine.Sstable.Reader.Kept.{value_at}
use scoria_db.Engine.Sstable.Iterator.{SstableIterator, new_iterator, drain}
use scoria_db.Engine.Sstable.Iterator.Entries.{pair_of, drain-parts}
use scoria_db.Engine.Sstable.Table.{
  IsTable, All-concat, groups-IsBlock, some_group, finish-sorted, admits_low,
}

module _ {bloom : BloomFilter} {es sorted : List RawEntry} {groups : List (List RawEntry)}
    {w : Writer} {min max : Bytes} (h : IsTable bloom es sorted groups w min max) where
  -- The writer is the one of the appended entries.
  the_writer : IsWriter w × (w.entries ≡ es)
  unfolding new_writer
  the_writer =
      let (w', e, known, entries) =
        append_all-IsWriter es (new_writer bloom) (new_writer-IsWriter bloom h.usable) in
      let same : w' ≡ w = ground (arith, e, h.appended) in
      (subst IsWriter same known, subst (λ v. v.entries ≡ es) same entries)

  abbrev written : Bytes × List IndexEntry × ℕ
  written = write_blocks 0 (map block_of groups)

  abbrev tail : Bytes
  tail = write_footer (length written.0) written.1 w.bloom (some min) (some max) (length sorted)

  file_fits :
      length written.0
        + length (encode_index written.1)
        + (4 + length (encode w.bloom))
        + (4 + length min)
        + (4 + length max)
        + footer_size
      < 2 ^ 63
  file_fits =
      subst
        (λ bs.
          length (write_blocks 0 bs).0
            + length (encode_index (write_blocks 0 bs).1)
            + (4 + length (encode w.bloom))
            + (4 + length min)
            + (4 + length max)
            + footer_size
          < 2 ^ 63)
        h.blocks.formed h.file_fits

  IsStorable-groups : All (λ g. All IsStorable g) groups
  IsStorable-groups =
      All-concat IsStorable groups (subst (All IsStorable) (sym h.blocks.all_entries) h.storable)

  length-tail :
      length tail
      ≡ length (encode_index written.1)
        + (4 + length (encode w.bloom))
        + (4 + length min)
        + (4 + length max)
        + footer_size
  length-tail = length-write_footer (length written.0) written.1 w.bloom min max (length sorted)

  blocks_written : AreWritten [] tail groups written
  blocks_written =
      write_blocks-AreWritten groups [] tail (groups-IsBlock groups h.blocks.fit IsStorable-groups)
        (omega (arith, file_fits, length-tail))

  is_file : IsFile written.0 written.1 w.bloom min max (length sorted)
  is_file = record {
    index_entries = blocks_written.indexed;
    bloom_sized = the_writer.0.usable.sized;
    bloom_fits = h.bloom_fits;
    min_fits = h.min_fits;
    max_fits = h.max_fits;
    count_fits = h.count_fits;
    file_fits = file_fits;
  }

  -- The file that Finish writes.
  finish_sorted-eq : finish_sorted sorted w ≡ written.0 ++ tail
  unfolding finish_sorted
  finish_sorted-eq =
      let end : written.2 ≡ length written.0 = blocks_written.end ∙ omega arith in
      rw (h.blocks.formed, h.min_is, h.max_is, end) refl

  finish-eq :
      (sort_slice : (RawEntry → RawEntry → Bool) → List RawEntry → List RawEntry)
      → sort_slice entry_less es ≡ sorted
      → finish sort_slice w ≡ written.0 ++ tail
  finish-eq sort_slice e =
      finish-sorted sort_slice w
        (omega (arith, ap (λ l. length l) the_writer.1, length-Perm h.permuted, h.some_entry))
      ∙ ap (λ l. finish_sorted (sort_slice entry_less l) w) the_writer.1
      ∙ ap (λ l. finish_sorted l w) e
      ∙ finish_sorted-eq

  the_reader : Reader
  the_reader = record {
    bytes = written.0 ++ tail;
    footer = footer_of (length written.0) written.1 w.bloom (some min) (some max) (length sorted);
    index_entries = written.1;
    bloom_filter = w.bloom;
    min_key = read_key min min;
    max_key = read_key min max;
    closed = false;
  }

  some_groups : 0 < length groups
  some_groups =
      some_group groups (omega (arith, ap (λ l. length l) h.blocks.all_entries, h.some_entry))

  the_reader-Reads : IsSeparated groups → Reads the_reader groups
  unfolding the_reader
  the_reader-Reads s = record {
    read_back = blocks_written.read_back;
    separated = s;
    sorted = subst IsSorted (sym h.blocks.all_entries) h.ordered;
    not_empty = h.blocks.not_empty;
    storable = IsStorable-groups;
    some_group = some_groups;
  }

  the_reader-Admits : Admits the_reader sorted
  unfolding the_reader
  the_reader-Admits = record {
    is_open = refl;
    low =
        All-map (λ e q. admits_low min e.key.key (subst (λ b. IsAbove b e.key.key) h.min_is q))
          sorted
          (All-Perm (λ e. IsAbove w.min_key e.key.key) h.permuted
            (subst (All (λ e. IsAbove w.min_key e.key.key)) the_writer.1 the_writer.0.low));
    answers = λ key. may_contain-some w.bloom key the_writer.0.usable;
    found =
        All-Perm (λ e. may_contain w.bloom e.key.key ≡ some true) h.permuted
          (subst (All (λ e. may_contain w.bloom e.key.key ≡ some true)) the_writer.1
            the_writer.0.found);
  }

  opened :
      (legacy : Bytes → BloomFilter)
      (sort_slice : (RawEntry → RawEntry → Bool) → List RawEntry → List RawEntry)
      → sort_slice entry_less es ≡ sorted
      → open_table legacy (finish sort_slice w) ≡ ok the_reader
  unfolding the_reader
  opened legacy sort_slice e =
      rw (finish-eq sort_slice e)
        (open_table-write_footer written.0 written.1 w.bloom min max (length sorted) is_file legacy)

  -- A table that is written from appended entries and opened: the file opens, and Lookup finds for a
  -- key in a snapshot the value of the newest version that the snapshot sees, nothing if that is a
  -- deletion or there is none. This holds if no user key stands in two blocks, and for the keys that
  -- the upper bound admits, which Open reads from the place of the smallest key.
  pub open_table-finish :
      (legacy : Bytes → BloomFilter)
      (sort_slice : (RawEntry → RawEntry → Bool) → List RawEntry → List RawEntry)
      → sort_slice entry_less es ≡ sorted
      → IsSeparated groups
      → (r : Reader) × (open_table legacy (finish sort_slice w) ≡ ok r)
        × ((key : MvccKey)
            → above_range key.key (read_key min max) ≡ false
            → lookup r key ≡ ok (value_at key.key (commit_ts key) sorted))
  unfolding the_reader
  open_table-finish legacy sort_slice e s = (
    the_reader,
    opened legacy sort_slice e,
    λ key high.
        subst (λ l. lookup the_reader key ≡ ok (value_at key.key (commit_ts key) l))
          h.blocks.all_entries
          (lookup-value_at the_reader groups (the_reader-Reads s)
            (subst (Admits the_reader) (sym h.blocks.all_entries) the_reader-Admits) key high),
  )

  -- A table that is written from appended entries and opened is iterated over in the order of Finish:
  -- each entry is seen once, its value without the tag, and no error.
  pub drain-finish :
      (legacy : Bytes → BloomFilter)
      (sort_slice : (RawEntry → RawEntry → Bool) → List RawEntry → List RawEntry) (fuel : ℕ)
      → sort_slice entry_less es ≡ sorted
      → length sorted < fuel
      → (r : Reader) × (it : SstableIterator) × (open_table legacy (finish sort_slice w) ≡ ok r)
        × (new_iterator r ≡ ok (ok it))
        × (drain fuel it ≡ ok (map pair_of sorted, none))
  unfolding the_reader
  drain-finish legacy sort_slice fuel e f =
      let (it, made, seen) =
        drain-parts the_reader groups written.1 fuel refl blocks_written.read_back
          h.blocks.not_empty IsStorable-groups some_groups
          (omega (arith, ap (λ l. length l) h.blocks.all_entries, f)) in
      (
        the_reader,
        it,
        opened legacy sort_slice e,
        made,
        subst (λ l. drain fuel it ≡ ok (map pair_of l, none)) h.blocks.all_entries seen,
      )
