-- ===== src/Engine/Sstable/Reader/Sections.antt =====
-- The sections behind the blocks of a file: their lengths, and what Open makes of a key section.
use scoria_db.Base.{
  ℕ, ◌+◌, ◌%◌, ◌^◌, ◌≤◌, ◌<◌, ◌≡◌, refl, sym, ap, ◌∙◌, Option, none, some, List, [], ◌∷◌, ◌++◌,
  arith, ◌==◌, if◌then◌else◌, length, length-append, Result, ok, choose_else,
}
use scoria_db.Base.Bytes.{Bytes, le_bytes}
use scoria_db.Base.Bytes.{length-le_bytes}
use scoria_db.Engine.Sstable.Bloom.{BloomFilter, encode}
use scoria_db.Engine.Sstable.Block.{TableError}
use scoria_db.Engine.Sstable.Index.{IndexEntry, encode_index}
use scoria_db.Engine.Sstable.Footer.{encode_footer, footer_size}
use scoria_db.Engine.Sstable.Footer.RoundTrip.{length-encode_footer}
use scoria_db.Engine.Sstable.Writer.{bloom_section, key_section, footer_of, write_footer}
use scoria_db.Engine.Sstable.Reader.{parse_key}
use scoria_db.Engine.Sstable.Reader.Opened.{length-bloom_section, parse_key-key_section}

-- What is read of a key from the section of `stored`: it is taken if the lengths agree.
unfoldable pub read_key : Bytes → Bytes → Option Bytes
read_key stored key =
    if length key == 0 then none else if length stored == length key then some stored else none

pub length-key_section : (key : Bytes) → length (key_section (some key)) ≡ 4 + length key
unfolding key_section
length-key_section key = omega (
  arith,
  length-append {0} (le_bytes 4 (length key % 2 ^ 32)) key,
  length-le_bytes 4 (length key % 2 ^ 32),
)

pub parse_key-read_key :
    (before stored after key : Bytes)
    → length stored + 4 < 2 ^ 32
    → length key ≤ length stored + length after
    → length before + (4 + length stored) + length after < 2 ^ 64
    → parse_key (before ++ (key_section (some stored) ++ after)) (length before) (length key)
      ≡ ok (read_key stored key)
unfolding parse_key read_key
parse_key-read_key before stored after [] small q fits = refl
parse_key-read_key before stored after (b ∷ key) small q fits =
    parse_key-key_section before stored after (length (b ∷ key)) (omega arith) small q fits
    ∙ ap {B = Result TableError (Option Bytes)} (λ r. ok r)
        (sym (choose_else (length (b ∷ key) == 0) none _ (ground arith)))

pub length-write_footer :
    (offset : ℕ) (index : List IndexEntry) (bloom : BloomFilter) (min_key max_key : Bytes)
    (count : ℕ)
    → length (write_footer offset index bloom (some min_key) (some max_key) count)
      ≡ length (encode_index index)
        + (4 + length (encode bloom))
        + (4 + length min_key)
        + (4 + length max_key)
        + footer_size
unfolding write_footer
length-write_footer offset index bloom min_key max_key count =
    let last = encode_footer (footer_of offset index bloom (some min_key) (some max_key) count) in
    let max_part = key_section (some max_key) ++ last in
    let keys_part = key_section (some min_key) ++ max_part in
    omega (
      arith,
      length-append {0} (encode_index index) (bloom_section bloom ++ keys_part),
      length-append {0} (bloom_section bloom) keys_part,
      length-append {0} (key_section (some min_key)) max_part,
      length-append {0} (key_section (some max_key)) last,
      length-bloom_section bloom,
      length-key_section min_key,
      length-key_section max_key,
      length-encode_footer (footer_of offset index bloom (some min_key) (some max_key) count),
    )
