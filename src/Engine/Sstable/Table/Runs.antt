-- ===== src/Engine/Sstable/Table/Runs.antt =====
-- A table of three versions of two keys, appended out of order; and the key that the upper bound loses.
use scoria_db.Base.Slices.{slice}
use scoria_db.Keys.Order.{lex}
use scoria_db.Engine.Sstable.Footer.{read_footer, encode_footer}
use scoria_db.Engine.Wal.Crc.{checksum}
use scoria_db.Engine.Sstable.Table.Composed.{drain-finish, open_table-finish}
use scoria_db.Engine.Sstable.Iterator.Entries.{pair_of}
use scoria_db.Engine.Sstable.Reader.Sections.{read_key}
use scoria_db.Engine.Sstable.Reader.{
  LookupFailure, Reader, open_table, lookup, above_range, is_tombstone, strip_tag,
}
use scoria_db.Mvcc.{MvccKey, commit_ts}
use scoria_db.Engine.Sstable.Iterator.{SstableIterator, new_iterator, drain}
use scoria_db.Engine.Sstable.Reader.Kept.{value_at}
use scoria_db.Base.{
  ◌+◌, ◌^◌, ◌<◌, ◌≡◌, refl, inl, length, Bool, true, false, Option, none, some, List, [], ◌∷◌, map,
  arith, if◌then◌else◌, Result, ok, err, ◌>>=◌,
}
use scoria_db.Base.Bytes.{Bytes, le_bytes, le_value, split, read}
use scoria_db.Engine.Sstable.Index.{encode_index, parse_index}
use scoria_db.Engine.Sstable.Block.{write_block}
use scoria_db.Engine.Sstable.Encoding.{encode_mvcc_key}
use mathlib.Core.List.{Permᴰ}
use scoria_db.Keys.{compare_keys}
use scoria_db.Engine.Sstable.Block.{TableError, panic}
use scoria_db.Engine.Sstable.Bloom.{
  BloomFilter, add, encode, bits_len, empty_filter, decode_bloom_filter,
}
use scoria_db.Engine.Sstable.Bloom.Members.{IsUsable}
use scoria_db.Engine.Sstable.Entry.{RawEntry, encode_raw, is_valid_value_tag}
use scoria_db.Engine.Sstable.Entry.RoundTrip.{stored, length-encode_raw}
use scoria_db.Engine.Sstable.Entry.Sequence.{encode_all}
use scoria_db.Engine.Sstable.Writer.{
  Writer, new_writer, finish, entry_less, form_blocks, write_blocks, append_internal,
}
use scoria_db.Engine.Sstable.Writer.Appended.{append_all}
use scoria_db.Engine.Sstable.Writer.Blocks.{AreBlocks, concat}
use scoria_db.Engine.Sstable.Writer.Located.{IsStorable}
use scoria_db.Engine.Sstable.Table.{IsTable}

abbrev small_filter : BloomFilter
small_filter = record { bits = 0 ∷ []; m = 64; k = 2; n = 0; seed = 1 }

abbrev gone_a : RawEntry
gone_a = record {
  key = record { key = 97 ∷ []; timestamp = 18446744073709551612 };
  value = none;
  tagged = false;
}

abbrev old_b : RawEntry
old_b = record {
  key = record { key = 98 ∷ 99 ∷ []; timestamp = 18446744073709551610 };
  value = some (120 ∷ []);
  tagged = false;
}

abbrev new_b : RawEntry
new_b = record {
  key = record { key = 98 ∷ 99 ∷ []; timestamp = 18446744073709551608 };
  value = some (0 ∷ 121 ∷ []);
  tagged = true;
}

abbrev the_entries : List RawEntry
the_entries = new_b ∷ gone_a ∷ old_b ∷ []

abbrev sorted_entries : List RawEntry
sorted_entries = gone_a ∷ old_b ∷ new_b ∷ []

abbrev the_writer : Writer
the_writer = record {
  entries = the_entries;
  bloom = record { bits = 70373580210176 ∷ []; m = 64; k = 2; n = 3; seed = 1 };
  min_key = some (97 ∷ []);
  max_key = some (98 ∷ 99 ∷ []);
}

abbrev insert : (RawEntry → RawEntry → Bool) → RawEntry → List RawEntry → List RawEntry
insert less e [] = e ∷ []
insert less e (f ∷ es) = let rest = insert less e es in if less e f then e ∷ f ∷ es else f ∷ rest

abbrev insertion_sort : (RawEntry → RawEntry → Bool) → List RawEntry → List RawEntry
insertion_sort less [] = []
insertion_sort less (e ∷ es) = insert less e (insertion_sort less es)

is_sorted_by : insertion_sort entry_less the_entries ≡ sorted_entries
unfolding entry_less compare_keys
is_sorted_by = refl

small_filter-IsUsable : IsUsable small_filter
unfolding bits_len
small_filter-IsUsable = record {
  sized = record {
    m_fits = omega arith;
    k_fits = omega arith;
    n_fits = omega arith;
    seed_fits = omega arith;
    words_fit = (omega arith, tt);
    words_count = refl;
  };
  m_rounds = omega arith;
  m_positive = omega arith;
  k_positive = omega arith;
}

appended : append_all the_entries (new_writer small_filter) ≡ some the_writer
unfolding append_all new_writer append_internal add compare_keys
appended = refl

-- A short entry can be stored.
short-IsStorable :
    (e : RawEntry)
    → length e.key.key + length (stored e) < 1000
    → e.key.timestamp < 2 ^ 64
    → IsStorable e
short-IsStorable e p q = record {
  writable = record {
    key_fits = omega (arith, p);
    value_fits = omega (arith, p);
    timestamp_fits = q;
  };
  block_fits = omega (arith, p, length-encode_raw e);
}

one_block : AreBlocks sorted_entries (form_blocks sorted_entries [] []) (sorted_entries ∷ [])
unfolding form_blocks encode_all encode_raw le_bytes encode_mvcc_key concat
one_block = record {
  formed = refl;
  all_entries = refl;
  not_empty = (omega arith, tt);
  fit = (inl (omega arith), tt);
}

rotated : Permᴰ the_entries sorted_entries
rotated = Permᴰ.trans (Permᴰ.swap refl refl) (Permᴰ.cons refl (Permᴰ.swap refl refl))

is_table :
    IsTable small_filter the_entries sorted_entries
      (sorted_entries ∷ [])
      the_writer
      (97 ∷ [])
      (98 ∷ 99 ∷ [])
unfolding entry_less compare_keys encode form_blocks write_blocks le_bytes encode_raw
    encode_mvcc_key write_block encode_index stored
is_table = record {
  usable = small_filter-IsUsable;
  appended = appended;
  permuted = rotated;
  ordered = ((refl, (refl, tt)), ((refl, tt), (tt, tt)));
  blocks = one_block;
  storable = (
    short-IsStorable gone_a (omega arith) (omega arith),
    (
      short-IsStorable old_b (omega arith) (omega arith),
      (short-IsStorable new_b (omega arith) (omega arith), tt),
    ),
  );
  some_entry = omega arith;
  min_is = refl;
  max_is = refl;
  bloom_fits = omega arith;
  min_fits = omega arith;
  max_fits = omega arith;
  count_fits = omega arith;
  file_fits = omega arith;
}

abbrev no_legacy : Bytes → BloomFilter
no_legacy bytes = empty_filter

open_table-finish_example :
    (r : Reader) × (open_table no_legacy (finish insertion_sort the_writer) ≡ ok r)
    × ((key : MvccKey)
        → above_range key.key (read_key (97 ∷ []) (98 ∷ 99 ∷ [])) ≡ false
        → lookup r key ≡ ok (value_at key.key (commit_ts key) sorted_entries))
open_table-finish_example = open_table-finish is_table no_legacy insertion_sort is_sorted_by tt

drain-finish_example :
    (r : Reader) × (it : SstableIterator) × (open_table no_legacy (finish insertion_sort the_writer)
      ≡ ok r)
    × (new_iterator r ≡ ok (ok it))
    × (drain 4 it ≡ ok (map pair_of sorted_entries, none))
drain-finish_example = drain-finish is_table no_legacy insertion_sort 4 is_sorted_by (omega arith)

-- The snapshot of timestamp 6 sees the version of timestamp 5, the later one that of 7, and the key
-- that is deleted has none.
seen_at_six : value_at (98 ∷ 99 ∷ []) 6 sorted_entries ≡ some (120 ∷ [])
unfolding value_at compare_keys commit_ts
seen_at_six = refl

seen_at_nine : value_at (98 ∷ 99 ∷ []) 9 sorted_entries ≡ some (121 ∷ [])
unfolding value_at compare_keys commit_ts is_tombstone strip_tag is_valid_value_tag
seen_at_nine = refl

deleted_key : value_at (97 ∷ []) 9 sorted_entries ≡ none
unfolding value_at compare_keys commit_ts
deleted_key = refl

-- A table of the keys "a" and "b": Open reads "a" in the place of the largest key, so that Lookup does
-- not find "b".
abbrev key_a : RawEntry
key_a = record {
  key = record { key = 97 ∷ []; timestamp = 18446744073709551610 };
  value = some (120 ∷ []);
  tagged = false;
}

abbrev key_b : RawEntry
key_b = record {
  key = record { key = 98 ∷ []; timestamp = 18446744073709551610 };
  value = some (121 ∷ []);
  tagged = false;
}

abbrev look_up_b : Option Writer → Result TableError (Result LookupFailure (Option Bytes))
look_up_b none = err panic
look_up_b (some w) = do r ← open_table no_legacy (finish insertion_sort w); ok (lookup r key_b.key)

lost_above_smallest :
    look_up_b (append_all (key_a ∷ key_b ∷ []) (new_writer small_filter)) ≡ ok (ok none)
unfolding append_all new_writer append_internal add compare_keys entry_less finish encode_raw
    encode_mvcc_key encode checksum read_footer parse_index open_table lookup lex read split
    le_bytes le_value write_block encode_index decode_bloom_filter encode_footer slice
lost_above_smallest = refl
