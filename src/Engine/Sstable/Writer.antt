-- ===== src/Engine/Sstable/Writer.antt =====
-- internal/engine/sstable/writer.go: the writer of a table. The file is the list of the bytes that
-- were written; the writes themselves do not fail.
pub mod Blocks
pub mod Appended
pub mod Located
mod Runs
use scoria_db.Base.{
  ℕ, ◌+◌, ◌*◌, ◌%◌, ◌^◌, Bool, true, false, ◌&&◌, Option, none, some, List, [], ◌∷◌, ◌++◌, Ordering,
  ltb, if◌then◌else◌, length,
}
use scoria_db.Base.Bytes.{Bytes, le_bytes}
use scoria_db.Keys.{compare_keys}
use scoria_db.Mvcc.{MvccKey}
use scoria_db.Engine.Sstable.Bloom.{BloomFilter, add, encode}
use scoria_db.Engine.Sstable.Entry.{RawEntry, encode_raw}
use scoria_db.Engine.Sstable.Block.{write_block}
use scoria_db.Engine.Sstable.Index.{IndexEntry, encode_index}
use scoria_db.Engine.Sstable.Footer.{Footer, encode_footer, magic_number}

abbrev pub block_size : ℕ
block_size = 16 * 1024

-- `minKey` and `maxKey` are nil before the first entry.
pub record Writer : Type 0 where
  pub entries : List RawEntry
  pub bloom : BloomFilter
  pub min_key : Option Bytes
  pub max_key : Option Bytes

unfoldable pub new_writer : BloomFilter → Writer
new_writer bloom = record { entries = []; bloom = bloom; min_key = none; max_key = none }

unfoldable pub lower_key : Bytes → Option Bytes → Bytes
lower_key key none = key
lower_key key (some min) = elim (compare_keys key min) [
  | Ordering.lt ↦ key
  | Ordering.eq ↦ min
  | Ordering.gt ↦ min
]

unfoldable pub upper_key : Bytes → Option Bytes → Bytes
upper_key key none = key
upper_key key (some max) = elim (compare_keys key max) [
  | Ordering.gt ↦ key
  | Ordering.eq ↦ max
  | Ordering.lt ↦ max
]

-- `none`: the Bloom filter panicked.
unfoldable pub append_internal : RawEntry → Writer → Option Writer
unfolding lower_key upper_key
append_internal entry w = elim (add entry.key.key w.bloom) [
  | none ↦ none
  | some bloom ↦ some (record {
    entries = w.entries ++ (entry ∷ []);
    bloom = bloom;
    min_key = some (lower_key entry.key.key w.min_key);
    max_key = some (upper_key entry.key.key w.max_key);
  })
]

unfoldable pub append : MvccKey → Option Bytes → Writer → Option Writer
unfolding append_internal
append key value w = append_internal (record { key = key; value = value; tagged = false }) w

unfoldable pub append_tagged : MvccKey → Option Bytes → Writer → Option Writer
unfolding append_internal
append_tagged key value w = append_internal (record { key = key; value = value; tagged = true }) w

-- The order that Finish gives to sort.Slice: the larger timestamp first.
unfoldable pub entry_less : RawEntry → RawEntry → Bool
entry_less e f = elim (compare_keys e.key.key f.key.key) [
  | Ordering.lt ↦ true
  | Ordering.gt ↦ false
  | Ordering.eq ↦ ltb f.key.timestamp e.key.timestamp
]

pub record Block : Type 0 where
  pub first_key : Bytes
  pub bytes : Bytes

-- `blockEntries[0].key.Key`, of a block that holds an entry
unfoldable pub first_user_key : List RawEntry → Bytes
first_user_key [] = []
first_user_key (e ∷ es) = e.key.key

-- The loop of Finish over the entries that are left, with `currentBlock` and `blockEntries`.
unfoldable pub form_blocks : List RawEntry → Bytes → List RawEntry → List Block
unfolding first_user_key
form_blocks [] current held =
    if ltb 0 (length current)
    then (record { first_key = first_user_key held; bytes = current } ∷ [])
    else []
form_blocks (e ∷ es) current held =
    elim (ltb block_size (length current + length (encode_raw e)) && ltb 0 (length current)) [
      | true ↦
          record { first_key = first_user_key held; bytes = current }
          ∷ form_blocks es (encode_raw e) (e ∷ [])
      | false ↦ form_blocks es (current ++ encode_raw e) (held ++ (e ∷ []))
    ]

-- The loop over the blocks from `offset` on: the bytes, the index and the offset behind them.
unfoldable pub write_blocks : ℕ → List Block → Bytes × List IndexEntry × ℕ
write_blocks offset [] = ([], [], offset)
write_blocks offset (b ∷ bs) =
    let rest = write_blocks ((offset + (4 + length b.bytes + 4)) % 2 ^ 64) bs in
    (write_block b.bytes ++ rest.0, record { key = b.first_key; offset = offset } ∷ rest.1, rest.2)

-- The length and the bytes of a key; four zero bytes for nil.
unfoldable pub key_section : Option Bytes → Bytes
key_section none = le_bytes 4 0
key_section (some key) = le_bytes 4 (length key % 2 ^ 32) ++ key

unfoldable pub key_length : Option Bytes → ℕ
key_length none = 0
key_length (some key) = length key

unfoldable pub bloom_section : BloomFilter → Bytes
bloom_section b = le_bytes 4 (length (encode b) % 2 ^ 32) ++ encode b

-- The footer of writeFooter: `offset` does not move behind the section of the smallest key, so
-- both keys get the same offset.
unfoldable pub footer_of :
    ℕ → List IndexEntry → BloomFilter → Option Bytes → Option Bytes → ℕ → Footer
unfolding key_length bloom_section
footer_of offset index bloom min_key max_key count =
    let index_size = length (encode_index index) in
    let bloom_offset = (offset + index_size) % 2 ^ 64 in
    let bloom_size = length (bloom_section bloom) in
    let keys_offset = (bloom_offset + bloom_size) % 2 ^ 64 in
    record {
      index_offset = offset;
      index_size = index_size;
      bloom_offset = bloom_offset;
      bloom_size = bloom_size;
      num_keys = count;
      magic = magic_number;
      min_key_offset = keys_offset;
      min_key_length = key_length min_key;
      max_key_offset = keys_offset;
      max_key_length = key_length max_key;
    }

-- What writeFooter writes behind the blocks.
unfoldable pub write_footer :
    ℕ → List IndexEntry → BloomFilter → Option Bytes → Option Bytes → ℕ → Bytes
unfolding footer_of key_section
write_footer offset index bloom min_key max_key count =
    encode_index index
    ++ (bloom_section bloom
        ++ (key_section min_key
            ++ (key_section max_key
                ++ encode_footer (footer_of offset index bloom min_key max_key count))))

-- Finish, the entries once sorted.
unfoldable pub finish_sorted : List RawEntry → Writer → Bytes
unfolding form_blocks write_blocks write_footer
finish_sorted sorted w =
    let written = write_blocks 0 (form_blocks sorted [] []) in
    written.0 ++ write_footer written.2 written.1 w.bloom w.min_key w.max_key (length sorted)

-- Finish; `sort_slice` is sort.Slice.
unfoldable pub finish :
    ((RawEntry → RawEntry → Bool) → List RawEntry → List RawEntry) → Writer → Bytes
unfolding finish_sorted entry_less
finish sort_slice w = elim w.entries [
  | [] ↦ write_footer 0 [] w.bloom none none 0
  | e ∷ es ↦ finish_sorted (sort_slice entry_less (e ∷ es)) w
]
