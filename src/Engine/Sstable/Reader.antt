-- ===== src/Engine/Sstable/Reader.antt =====
-- internal/engine/sstable/reader.go: opening a table that is mapped into memory, and the lookup of a
-- key in it. The mapping is the list of the bytes of the file.
pub mod Opened
pub mod Sections
pub mod Written
pub mod Scan
pub mod Newest
pub mod Kept
pub mod Choice
pub mod Found
pub mod Lookups
pub mod Filters
mod Runs
use scoria_db.Base.{
  ℕ, zero, suc, ◌+◌, ◌-◌, ◌%◌, ◌^◌, Bool, true, false, not, ◌&&◌, ◌||◌, Option, none, some, List,
  [], ◌∷◌, Ordering, ltb, ◌==◌, if◌then◌else◌, length, get_elem?, take, Result, ok, err, ◌>>=◌,
}
use scoria_db.Base.Bytes.{Bytes, le_value, read}
use scoria_db.Base.Slices.{slice}
use scoria_db.Base.Search.{search}
use scoria_db.Keys.{compare_keys}
use scoria_db.Keys.Order.{lex}
use scoria_db.Mvcc.{MvccKey, commit_ts}
use scoria_db.Engine.Sstable.Encoding.{decode_mvcc_key, corrupted, EncodingError}
use scoria_db.Engine.Sstable.Bloom.{BloomFilter, may_contain, decode_bloom_filter}
use scoria_db.Engine.Sstable.Entry.{read_entry, is_valid_value_tag, tag_tombstone}
use scoria_db.Engine.Sstable.Block.{TableError, out_of_range, panic, read_block_from_mmap}
use scoria_db.Engine.Sstable.Index.{IndexEntry, parse_index}
use scoria_db.Engine.Sstable.Footer.{Footer, read_footer}

pub record Reader : Type 0 where
  pub bytes : Bytes
  pub footer : Footer
  pub index_entries : List IndexEntry
  pub bloom_filter : BloomFilter
  pub min_key : Option Bytes
  pub max_key : Option Bytes
  pub closed : Bool

-- The slice behind the bounds test of parseBloomFilter; `legacy` decodes the old format.
unfoldable pub bloom_of_section : (Bytes → BloomFilter) → Bytes → Result TableError BloomFilter
bloom_of_section legacy section =
    let size = le_value (take 4 section) in
    if ltb (length section) 4
    then ok (decode_bloom_filter legacy [])
    else if ltb (length section - 4) size
    then ok (decode_bloom_filter legacy [])
    else (do
      bloom ← slice panic 4 ((4 + size) % 2 ^ 32) section
      ok (decode_bloom_filter legacy bloom))

unfoldable pub parse_bloom_filter :
    (Bytes → BloomFilter) → Bytes → ℕ → ℕ → Result TableError BloomFilter
unfolding bloom_of_section
parse_bloom_filter legacy bytes offset size =
    let end = (offset + size) % 2 ^ 64 in
    if ltb (length bytes) end
    then err out_of_range
    else (do section ← slice panic offset end bytes; bloom_of_section legacy section)

unfoldable pub parse_key : Bytes → ℕ → ℕ → Result TableError (Option Bytes)
parse_key bytes offset len =
    let end = (offset + 4 + len) % 2 ^ 64 in
    if len == 0 || ltb (length bytes) end then ok none else (do
      section ← slice panic offset end bytes
      (key_len, rest) ← read 4 panic section
      if not (le_value key_len == len)
          then ok none
          else (do key ← slice panic 4 ((4 + le_value key_len) % 2 ^ 32) section; ok (some key)))

-- Open of a mapped file.
unfoldable pub open_table : (Bytes → BloomFilter) → Bytes → Result TableError Reader
unfolding parse_bloom_filter parse_key
open_table legacy bytes = do
  footer ← read_footer bytes
  index ← parse_index bytes footer.index_offset footer.index_size
  bloom ← parse_bloom_filter legacy bytes footer.bloom_offset footer.bloom_size
  min_key ← parse_key bytes footer.min_key_offset footer.min_key_length
  max_key ← parse_key bytes footer.max_key_offset footer.max_key_length
  ok (record {
    bytes = bytes;
    footer = footer;
    index_entries = index;
    bloom_filter = bloom;
    min_key = min_key;
    max_key = max_key;
    closed = false;
  })

-- bestVal, bestFound and bestTombstone
pub record Best : Type 0 where
  pub val : Bytes
  pub found : Bool
  pub tombstone : Bool

abbrev pub no_best : Best
no_best = record { val = []; found = false; tombstone = false }

unfoldable pub is_tombstone : Bytes → Bool
is_tombstone [] = true
is_tombstone (tag ∷ []) = tag == tag_tombstone
is_tombstone (tag ∷ b ∷ payload) = false

-- The value without its tag; a value without a valid tag is left alone.
unfoldable pub strip_tag : Bytes → Bytes
strip_tag [] = []
strip_tag (tag ∷ payload) = if is_valid_value_tag tag then payload else tag ∷ payload

-- The branch of a version of the key.
unfoldable pub note_version : ℕ → MvccKey → Bytes → Best → Best
unfolding is_tombstone strip_tag
note_version snapshot_ts k value best = if ltb snapshot_ts (commit_ts k) then best else record {
  val = if is_tombstone value then value else strip_tag value;
  found = true;
  tombstone = is_tombstone value;
}

-- A run-time panic; `stuck` is no Go value: the fuel ran out.
pub data LookupFailure : Type 0 where
  panicked stuck : LookupFailure

-- The loop over what is left of the block.
unfoldable pub scan_block : ℕ → Bytes → ℕ → Bytes → Best → Result LookupFailure Best
unfolding note_version
scan_block zero user_key snapshot_ts rest best = err stuck
scan_block (suc fuel) user_key snapshot_ts rest best = elim (read_entry rest) [
  | err e ↦ ok best
  | ok (key, value, left) ↦ elim (decode_mvcc_key key) [
    | err corrupted ↦ scan_block fuel user_key snapshot_ts left best
    | err EncodingError.panic ↦ err panicked
    | ok k ↦ elim (compare_keys k.key user_key) [
      | Ordering.lt ↦ scan_block fuel user_key snapshot_ts left best
      | Ordering.gt ↦ ok best
      | Ordering.eq ↦
          scan_block fuel user_key snapshot_ts left (note_version snapshot_ts k value best)
    ]
  ]
]

-- The test behind the loop.
unfoldable pub found_value : Best → Option Bytes
found_value best = if not best.found || best.tombstone then none else some best.val

-- `bytes.Compare(r.indexEntries[i].key, userKey) >= 0`
unfoldable pub at_least : Bytes → List IndexEntry → ℕ → Bool
at_least user_key index i = elim (get_elem? index i) [
  | none ↦ true
  | some entry ↦ elim (lex entry.key user_key) [
    | Ordering.lt ↦ false
    | Ordering.eq ↦ true
    | Ordering.gt ↦ true
  ]
]

-- `bytes.Compare(r.indexEntries[idx].key, userKey) != 0`
unfoldable pub differs_at : Bytes → List IndexEntry → ℕ → Bool
differs_at user_key index i = elim (get_elem? index i) [
  | none ↦ true
  | some entry ↦ elim (lex entry.key user_key) [
    | Ordering.eq ↦ false
    | Ordering.lt ↦ true
    | Ordering.gt ↦ true
  ]
]

-- The index entry of `blockIdx`, from the result `idx` of the search; `none` if the index is empty,
-- which makes `blockIdx` -1.
unfoldable pub block_at : Bytes → List IndexEntry → ℕ → Option IndexEntry
unfolding differs_at
block_at user_key index idx =
    if idx == length index
    then (if length index == 0 then none else get_elem? index (length index - 1))
    else if ltb 0 idx && differs_at user_key index idx
    then get_elem? index (idx - 1)
    else get_elem? index idx

unfoldable pub choose_block : Bytes → List IndexEntry → Option IndexEntry
unfolding at_least block_at
choose_block user_key index =
    block_at user_key index (search (length index) (at_least user_key index))

-- `len(r.minKey) > 0 && bytes.Compare(userKey, r.minKey) < 0`
unfoldable pub below_range : Bytes → Option Bytes → Bool
below_range user_key none = false
below_range user_key (some min) =
    ltb 0 (length min)
    && (elim (lex user_key min) [ Ordering.lt ↦ true | Ordering.eq ↦ false | Ordering.gt ↦ false ])

-- `len(r.maxKey) > 0 && bytes.Compare(userKey, r.maxKey) > 0`
unfoldable pub above_range : Bytes → Option Bytes → Bool
above_range user_key none = false
above_range user_key (some max) =
    ltb 0 (length max)
    && (elim (lex user_key max) [ Ordering.gt ↦ true | Ordering.eq ↦ false | Ordering.lt ↦ false ])

-- Lookup behind the filters: a block that cannot be read is one without the key. Each round of the
-- loop over a block reads eight bytes at least.
unfoldable pub lookup_block : Reader → Bytes → ℕ → Result LookupFailure (Option Bytes)
unfolding choose_block scan_block found_value
lookup_block r user_key snapshot_ts = elim (choose_block user_key r.index_entries) [
  | none ↦ ok none
  | some entry ↦ elim (read_block_from_mmap r.bytes entry.offset) [
    | err panic ↦ err panicked
    | err _ ↦ ok none
    | ok block ↦ elim (scan_block (suc (length block)) user_key snapshot_ts block no_best) [
      | err e ↦ err e
      | ok best ↦ ok (found_value best)
    ]
  ]
]

unfoldable pub lookup : Reader → MvccKey → Result LookupFailure (Option Bytes)
unfolding lookup_block below_range above_range
lookup r key =
    if r.closed || below_range key.key r.min_key || above_range key.key r.max_key
    then ok none
    else (elim (may_contain r.bloom_filter key.key) [
      | none ↦ err panicked
      | some false ↦ ok none
      | some true ↦ lookup_block r key.key (commit_ts key)
    ])
