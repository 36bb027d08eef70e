-- ===== src/Engine/Sstable/Reader/Opened.antt =====
-- Open on a file that Finish wrote.
use scoria_db.Base.{
  ℕ, ◌+◌, ◌-◌, ◌%◌, ◌^◌, ◌≤◌, ◌<◌, ◌≡◌, refl, ap, ◌∙◌, Bool, true, false, not, ◌||◌, Option, none,
  some, [], ◌++◌, append_assoc, arith, ltb, ◌==◌, if◌then◌else◌, ==_iff, length, take,
  length-append, Result, ok, err, choose_else,
}
use scoria_db.Base.Bytes.{Bytes, le_bytes, le_value, take-append_past}
use scoria_db.Base.Bytes.{read_le, le_value-uint32, length-le_bytes, take-append_of_length}
use scoria_db.Base.Slices.{slice, slice-append, slice_to_end, slice_within}
use scoria_db.Engine.Sstable.Bloom.{BloomFilter, encode, decode_bloom_filter}
use scoria_db.Engine.Sstable.Bloom.RoundTrip.{IsSized, decode_new_format-encode}
use scoria_db.Engine.Sstable.Block.{TableError, panic, out_of_range}
use scoria_db.Engine.Sstable.Writer.{bloom_section, key_section}
use scoria_db.Engine.Sstable.Reader.{bloom_of_section, parse_bloom_filter, parse_key}

-- A length of 32 bits and the bytes that it counts.
prefix_value :
    (v after : Bytes)
    → length v < 2 ^ 32
    → le_value (take 4 (le_bytes 4 (length v % 2 ^ 32) ++ after)) ≡ length v
prefix_value v after h =
    ap le_value (
      take-append_of_length 4 (le_bytes 4 (length v % 2 ^ 32)) after
        (length-le_bytes 4 (length v % 2 ^ 32)))
    ∙ le_value-uint32 (length v) h

prefix_rest :
    (v : Bytes)
    → length v + 4 < 2 ^ 32
    → slice {E = TableError} panic 4 ((4 + length v) % 2 ^ 32) (le_bytes 4 (length v % 2 ^ 32) ++ v)
      ≡ ok v
prefix_rest v h =
    let size = le_bytes 4 (length v % 2 ^ 32) in
    let len = length-le_bytes 4 (length v % 2 ^ 32) in
    slice_to_end panic 4 ((4 + length v) % 2 ^ 32) size v len
      (omega (arith, h, len, length-append {0} size v))

decode_bloom_filter-encode :
    (legacy : Bytes → BloomFilter) (b : BloomFilter)
    → IsSized b
    → decode_bloom_filter legacy (encode b) ≡ b
unfolding decode_bloom_filter encode
decode_bloom_filter-encode legacy b h = decode_new_format-encode b h

pub length-bloom_section : (b : BloomFilter) → length (bloom_section b) ≡ 4 + length (encode b)
unfolding bloom_section
length-bloom_section b = omega (
  arith,
  length-append {0} (le_bytes 4 (length (encode b) % 2 ^ 32)) (encode b),
  length-le_bytes 4 (length (encode b) % 2 ^ 32),
)

bloom_of_section-bloom_section :
    (legacy : Bytes → BloomFilter) (b : BloomFilter)
    → IsSized b
    → length (encode b) + 4 < 2 ^ 32
    → bloom_of_section legacy (bloom_section b) ≡ ok b
unfolding bloom_of_section bloom_section
bloom_of_section-bloom_section legacy b h small =
    let bytes = encode b in
    let len = length-bloom_section b in
    let front : le_value (take 4 (bloom_section b)) ≡ length bytes =
      prefix_value bytes bytes (omega (arith, small)) in
    let whole : slice panic 4 ((4 + length bytes) % 2 ^ 32) (bloom_section b) ≡ ok bytes =
      prefix_rest bytes small in
    choose_else (ltb (length (bloom_section b)) 4) (ok (decode_bloom_filter legacy [])) _
      (ground (arith, len))
    ∙ choose_else (ltb (length (bloom_section b) - 4) (le_value (take 4 (bloom_section b))))
        (ok (decode_bloom_filter legacy [])) _ (ground (arith, len, front))
    ∙ rw (front, whole, decode_bloom_filter-encode legacy b h) refl

-- A section that stands at its offset in the file.
pub parse_bloom_filter-bloom_section :
    (legacy : Bytes → BloomFilter) (before : Bytes) (b : BloomFilter) (after : Bytes)
    → IsSized b
    → length (encode b) + 4 < 2 ^ 32
    → length before + length (bloom_section b) + length after < 2 ^ 64
    → parse_bloom_filter legacy
        (before ++ (bloom_section b ++ after))
        (length before)
        (length (bloom_section b))
      ≡ ok b
unfolding parse_bloom_filter
parse_bloom_filter-bloom_section legacy before b after h small fits =
    let section = bloom_section b in
    let end = (length before + length section) % 2 ^ 64 in
    let inside : length before + length section ≡ end = omega (arith, fits) in
    choose_else (ltb (length (before ++ (section ++ after))) end) (err out_of_range) _ (
      ground (
        arith,
        inside,
        length-append {0} before (section ++ after),
        length-append {0} section after,
      ))
    ∙ rw (slice-append panic (length before) end before section after refl inside)
        (bloom_of_section-bloom_section legacy b h small)

-- The test of the length, in front of the slice.
length_checked :
    (same : Bool) (key : Bytes) (sliced : Result TableError (Option Bytes))
    → (same ≡ true → sliced ≡ ok (some key))
    → (if not same then ok none else sliced) ≡ ok (if same then some key else none)
length_checked true key sliced h = h refl
length_checked false key sliced h = refl

-- A key section is read as its key, if its length is the one that is asked for.
pub parse_key-key_section :
    (before key after : Bytes) (len : ℕ)
    → 0 < len
    → length key + 4 < 2 ^ 32
    → len ≤ length key + length after
    → length before + (4 + length key) + length after < 2 ^ 64
    → parse_key (before ++ (key_section (some key) ++ after)) (length before) len
      ≡ ok (if length key == len then some key else none)
unfolding parse_key key_section
parse_key-key_section before key after len p small q fits =
    let size = le_bytes 4 (length key % 2 ^ 32) in
    let size_len = length-le_bytes 4 (length key % 2 ^ 32) in
    let tail = (size ++ key) ++ after in
    let file = before ++ tail in
    let end = (length before + 4 + len) % 2 ^ 64 in
    let inside : length before + (4 + len) ≡ end = omega (arith, q, fits) in
    let tail_len : length tail ≡ 4 + length key + length after =
      omega (arith, size_len, length-append {0} (size ++ key) after, length-append {0} size key) in
    let file_len : length file ≡ length before + (4 + length key + length after) =
      omega (arith, tail_len, length-append {0} before tail) in
    let cut : take (4 + len) tail ≡ size ++ take len (key ++ after) =
      ap (λ l. take (4 + len) l) (append_assoc size key after)
      ∙ take-append_past 4 len size (key ++ after) size_len in
    let section : slice {E = TableError} panic (length before) end file
        ≡ ok (size ++ take len (key ++ after)) =
      slice_within panic (length before) end (4 + len) before tail refl inside
        (omega (arith, q, tail_len))
      ∙ ap {B = Result TableError Bytes} (λ l. ok l) cut in
    choose_else (len == 0 || ltb (length file) end) (ok none) _
      (ground (arith, p, q, inside, file_len))
    ∙ rw
        (
          section,
          read_le 4 (length key % 2 ^ 32) panic (take len (key ++ after)),
          le_value-uint32 (length key) (omega (arith, small)),
        )
        (length_checked (length key == len) key _ λ e.
          let whole : take len (key ++ after) ≡ key =
            take-append_of_length len key after ((==_iff (length key) len).0 e) in
          rw (whole, prefix_rest key small) refl)
