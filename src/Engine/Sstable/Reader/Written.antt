-- ===== src/Engine/Sstable/Reader/Written.antt =====
-- The parts of a written file stand where its footer says, and Open finds them there.
use scoria_db.Base.{
  subst, ℕ, ◌+◌, ◌^◌, ◌≤◌, ◌<◌, ◌≡◌, refl, sym, ap, ◌∙◌, false, Option, some, List, ◌++◌,
  append_assoc, arith, length, All, length-append, ok,
}
use scoria_db.Base.Bytes.{Bytes}
use scoria_db.Engine.Sstable.Bloom.{BloomFilter, encode}
use scoria_db.Engine.Sstable.Bloom.RoundTrip.{IsSized}
use scoria_db.Engine.Sstable.Index.{IndexEntry, encode_index, parse_index}
use scoria_db.Engine.Sstable.Index.RoundTrip.{IsIndexEntry, parse_index-encode_index}
use scoria_db.Engine.Sstable.Footer.{Footer, encode_footer, read_footer, footer_size, magic_number}
use scoria_db.Engine.Sstable.Footer.RoundTrip.{
  IsFooter, read_footer-encode_footer, length-encode_footer,
}
use scoria_db.Engine.Sstable.Writer.{
  bloom_section, key_section, key_length, footer_of, write_footer,
}
use scoria_db.Engine.Sstable.Reader.{parse_bloom_filter, parse_key, open_table}
use scoria_db.Engine.Sstable.Reader.Opened.{length-bloom_section, parse_bloom_filter-bloom_section}
use scoria_db.Engine.Sstable.Reader.Sections.{read_key, length-key_section, parse_key-read_key}

-- What a parser finds in a file of another shape, at an offset that is known.
along :
    {R : Type 0} {r : R} {l l' : Bytes} {n n' : ℕ} (parse : Bytes → ℕ → R)
    → l ≡ l'
    → n ≡ n'
    → parse l' n' ≡ r
    → parse l n ≡ r
along {r = r} {l' = l'} {n = n} parse p q e =
    subst (λ l. parse l n ≡ r) (sym p) (subst (λ n. parse l' n ≡ r) (sym q) e)

-- Open, from what its parsers return.
open_table-parts :
    (legacy : Bytes → BloomFilter) (bytes : Bytes) (f : Footer) (index : List IndexEntry)
    (bloom : BloomFilter) (min_key max_key : Option Bytes)
    → read_footer bytes ≡ ok f
    → parse_index bytes f.index_offset f.index_size ≡ ok index
    → parse_bloom_filter legacy bytes f.bloom_offset f.bloom_size ≡ ok bloom
    → parse_key bytes f.min_key_offset f.min_key_length ≡ ok min_key
    → parse_key bytes f.max_key_offset f.max_key_length ≡ ok max_key
    → open_table legacy bytes
      ≡ ok (record {
        bytes = bytes;
        footer = f;
        index_entries = index;
        bloom_filter = bloom;
        min_key = min_key;
        max_key = max_key;
        closed = false;
      })
unfolding open_table
open_table-parts legacy bytes f index bloom min_key max_key a b c d e =
    rw (a, open_table, b, c, d, e) refl

-- What a file can hold: the lengths fit their fields.
pub record IsFile (blocks : Bytes) (index : List IndexEntry) (bloom : BloomFilter)
    (min_key max_key : Bytes) (count : ℕ) : Type 0 where
  pub index_entries : All IsIndexEntry index
  pub bloom_sized : IsSized bloom
  pub bloom_fits : length (encode bloom) + 4 < 2 ^ 32
  pub min_fits : length min_key + 4 < 2 ^ 32
  pub max_fits : length max_key + 4 < 2 ^ 32
  pub count_fits : count < 2 ^ 64
  pub file_fits :
      length blocks
        + length (encode_index index)
        + (4 + length (encode bloom))
        + (4 + length min_key)
        + (4 + length max_key)
        + footer_size
      < 2 ^ 63

module _ (blocks : Bytes) (index : List IndexEntry) (bloom : BloomFilter) (min_key max_key : Bytes)
    (count : ℕ) (h : IsFile blocks index bloom min_key max_key count) where
  abbrev the_footer : Footer
  the_footer = footer_of (length blocks) index bloom (some min_key) (some max_key) count

  abbrev file : Bytes
  file = blocks ++ write_footer (length blocks) index bloom (some min_key) (some max_key) count

  abbrev to_bloom : Bytes
  to_bloom = blocks ++ encode_index index

  abbrev to_keys : Bytes
  to_keys = to_bloom ++ bloom_section bloom

  abbrev max_part : Bytes
  max_part = key_section (some max_key) ++ encode_footer the_footer

  abbrev keys_part : Bytes
  keys_part = key_section (some min_key) ++ max_part

  bloom_shape : file ≡ to_bloom ++ (bloom_section bloom ++ keys_part)
  unfolding write_footer
  bloom_shape = sym (append_assoc blocks (encode_index index) (bloom_section bloom ++ keys_part))

  keys_shape : file ≡ to_keys ++ keys_part
  keys_shape = bloom_shape ∙ sym (append_assoc to_bloom (bloom_section bloom) keys_part)

  footer_shape :
      file
      ≡ ((to_keys ++ key_section (some min_key)) ++ key_section (some max_key))
        ++ encode_footer the_footer
  footer_shape =
      keys_shape
      ∙ sym (append_assoc to_keys (key_section (some min_key)) max_part)
      ∙ sym (
          append_assoc (to_keys ++ key_section (some min_key)) (key_section (some max_key))
            (encode_footer the_footer))

  length-to_bloom : length to_bloom ≡ length blocks + length (encode_index index)
  length-to_bloom = length-append {0} blocks (encode_index index)

  length-to_keys : length to_keys ≡ length to_bloom + (4 + length (encode bloom))
  length-to_keys =
      length-append {0} to_bloom (bloom_section bloom)
      ∙ ap (λ n. length to_bloom + n) (length-bloom_section bloom)

  length-max_part : length max_part ≡ 4 + length max_key + footer_size
  length-max_part = omega (
    arith,
    length-append {0} (key_section (some max_key)) (encode_footer the_footer),
    length-key_section max_key,
    length-encode_footer the_footer,
  )

  bloom_at : the_footer.bloom_offset ≡ length to_bloom
  unfolding footer_of
  bloom_at = omega (arith, h.file_fits, length-to_bloom)

  keys_at : the_footer.min_key_offset ≡ length to_keys
  unfolding footer_of
  keys_at = omega (arith, h.file_fits, length-to_bloom, length-to_keys, length-bloom_section bloom)

  the_footer-IsFooter : IsFooter the_footer
  unfolding footer_of key_length
  the_footer-IsFooter = record {
    index_offset_fits = omega (arith, h.file_fits);
    index_size_fits = omega (arith, h.file_fits);
    bloom_offset_fits = omega arith;
    bloom_size_fits = omega (arith, h.file_fits, length-bloom_section bloom);
    num_keys_fits = h.count_fits;
    magic_fits = omega arith;
    min_key_offset_fits = omega arith;
    min_key_length_fits = omega (arith, h.min_fits);
    max_key_offset_fits = omega arith;
    max_key_length_fits = omega (arith, h.max_fits);
  }

  magic_of : the_footer.magic ≡ magic_number
  unfolding footer_of
  magic_of = refl

  read_footer-file : read_footer file ≡ ok the_footer
  read_footer-file =
      subst (λ l. read_footer l ≡ ok the_footer) (sym footer_shape)
        (read_footer-encode_footer
          ((to_keys ++ key_section (some min_key)) ++ key_section (some max_key)) the_footer
          the_footer-IsFooter magic_of)

  parse_index-file : parse_index file the_footer.index_offset the_footer.index_size ≡ ok index
  unfolding write_footer footer_of
  parse_index-file =
      parse_index-encode_index blocks index (bloom_section bloom ++ keys_part) h.index_entries (
        omega (
          arith,
          h.file_fits,
          length-append {0} (bloom_section bloom) keys_part,
          length-append {0} (key_section (some min_key)) max_part,
          length-key_section min_key,
          length-max_part,
          length-bloom_section bloom,
        ))

  -- How much stands behind the Bloom filter.
  length-keys_part : length keys_part ≡ 4 + length min_key + (4 + length max_key + footer_size)
  length-keys_part = omega (
    arith,
    length-append {0} (key_section (some min_key)) max_part,
    length-key_section min_key,
    length-max_part,
  )

  parse_bloom_filter-file :
      (legacy : Bytes → BloomFilter)
      → parse_bloom_filter legacy file the_footer.bloom_offset the_footer.bloom_size ≡ ok bloom
  unfolding footer_of
  parse_bloom_filter-file legacy =
      along (λ l n. parse_bloom_filter legacy l n (length (bloom_section bloom))) bloom_shape
        bloom_at
        (parse_bloom_filter-bloom_section legacy to_bloom bloom keys_part h.bloom_sized h.bloom_fits
          (omega
            (arith, h.file_fits, length-to_bloom, length-keys_part, length-bloom_section bloom)))

  parse_key-file :
      (key : Bytes)
      → length key ≤ length min_key + length max_part
      → parse_key file the_footer.min_key_offset (length key) ≡ ok (read_key min_key key)
  parse_key-file key q =
      along (λ l n. parse_key l n (length key)) keys_shape keys_at
        (parse_key-read_key to_keys min_key max_part key h.min_fits q
          (omega (arith, h.file_fits, length-to_bloom, length-to_keys, length-max_part)))

  -- Open on a written file: the index and the filter are read as they were written, and so is the
  -- smallest key; in the place of the largest key stands the smallest, where their lengths are equal,
  -- else none.
  pub open_table-write_footer :
      (legacy : Bytes → BloomFilter)
      → open_table legacy
          (blocks ++ write_footer (length blocks) index bloom (some min_key) (some max_key) count)
        ≡ ok (record {
          bytes =
              blocks
              ++ write_footer (length blocks) index bloom (some min_key) (some max_key) count;
          footer = footer_of (length blocks) index bloom (some min_key) (some max_key) count;
          index_entries = index;
          bloom_filter = bloom;
          min_key = read_key min_key min_key;
          max_key = read_key min_key max_key;
          closed = false;
        })
  unfolding footer_of
  open_table-write_footer legacy =
      open_table-parts legacy file the_footer index bloom (read_key min_key min_key)
        (read_key min_key max_key) read_footer-file parse_index-file
        (parse_bloom_filter-file legacy) (parse_key-file min_key (omega arith))
        (parse_key-file max_key (omega (arith, length-max_part)))
