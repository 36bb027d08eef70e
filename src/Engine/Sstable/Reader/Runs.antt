-- ===== src/Engine/Sstable/Reader/Runs.antt =====
-- A block that is cut off, an index of two keys, and a key whose versions stand in two blocks.
use scoria_db.Keys.{compare_keys}
use scoria_db.Base.Search.{search}
use scoria_db.Engine.Wal.Crc.{checksum}
use scoria_db.Engine.Sstable.Encoding.{encode_mvcc_key, decode_mvcc_key}
use scoria_db.Engine.Sstable.Entry.Sequence.{encode_all}
use scoria_db.Base.Slices.{int_above, slice}
use scoria_db.Keys.Order.{lex}
use scoria_db.Base.{ℕ, ◌≡◌, refl, ◌≢◌, false, none, some, List, [], ◌∷◌, map, arith, ok, err}
use scoria_db.Base.Bytes.{Bytes, le_bytes, le_value, split, read}
use scoria_db.Mvcc.{commit_ts}
use scoria_db.Engine.Sstable.Bloom.{empty_filter}
use scoria_db.Engine.Sstable.Index.{IndexEntry}
use scoria_db.Engine.Sstable.Block.{panic, read_block_from_mmap, write_block}
use scoria_db.Engine.Sstable.Entry.{RawEntry, encode_raw, read_entry}
use scoria_db.Engine.Sstable.Writer.{write_blocks, first_user_key}
use scoria_db.Engine.Sstable.Writer.Blocks.{block_of}
use scoria_db.Engine.Sstable.Reader.{
  Reader, stuck, no_best, scan_block, choose_block, lookup_block, compare_keys, commit_ts,
}
use scoria_db.Engine.Sstable.Reader.Scan.{scan_block-ends}
use scoria_db.Engine.Sstable.Reader.Choice.{last_not_above, choose_block-last_not_above}

scan_block-ends_example : scan_block 4 (1 ∷ []) 9 (1 ∷ 0 ∷ 0 ∷ []) no_best ≢ err stuck
scan_block-ends_example = scan_block-ends (1 ∷ []) 9 4 (1 ∷ 0 ∷ 0 ∷ []) no_best (omega arith)

abbrev two_keys : List IndexEntry
two_keys = record { key = 5 ∷ []; offset = 0 } ∷ record { key = 8 ∷ []; offset = 40 } ∷ []

choose_block-last_not_above_example :
    choose_block (7 ∷ []) two_keys ≡ last_not_above (7 ∷ []) two_keys
unfolding lex
choose_block-last_not_above_example = choose_block-last_not_above (7 ∷ []) two_keys (refl, tt)

-- An offset near 2 ^ 64 wraps, passes the test of the bounds, and the slice panics.
wrapped_offset : read_block_from_mmap (1 ∷ 2 ∷ []) 18446744073709551612 ≡ err panic
unfolding read_block_from_mmap int_above slice
wrapped_offset = refl

-- The versions of timestamps 5 and 7 of a key in two blocks: in the snapshot of timestamp 6 Lookup
-- reads the second block alone and finds neither.
abbrev version : ℕ → RawEntry
version timestamp = record {
  key = record { key = 98 ∷ []; timestamp = timestamp };
  value = some (120 ∷ []);
  tagged = false;
}

abbrev key_before : RawEntry
key_before = record {
  key = record { key = 97 ∷ []; timestamp = 18446744073709551610 };
  value = some (120 ∷ []);
  tagged = false;
}

abbrev two_blocks : Bytes × List IndexEntry × ℕ
two_blocks = write_blocks 0 (
    map block_of
      ((key_before ∷ version 18446744073709551610 ∷ []) ∷ (version 18446744073709551608 ∷ []) ∷ []))

abbrev two_block_reader : Reader
two_block_reader = record {
  bytes = two_blocks.0;
  footer = record {
    index_offset = 0;
    index_size = 0;
    bloom_offset = 0;
    bloom_size = 0;
    num_keys = 3;
    magic = 0;
    min_key_offset = 0;
    min_key_length = 0;
    max_key_offset = 0;
    max_key_length = 0;
  };
  index_entries = two_blocks.1;
  bloom_filter = empty_filter;
  min_key = none;
  max_key = none;
  closed = false;
}

older_version_lost : lookup_block two_block_reader (98 ∷ []) 6 ≡ ok none
unfolding lookup_block write_blocks write_block first_user_key encode_all encode_raw encode_mvcc_key
    le_bytes le_value checksum lex search read_block_from_mmap read split read_entry decode_mvcc_key
    compare_keys commit_ts int_above slice
older_version_lost = refl
