-- ===== src/Engine/Sstable/Bloom/RoundTrip.antt =====
-- A filter is read back as it was written.
use scoria_db.Base.{ℕ, ◌^◌, ◌<◌, ◌≡◌, refl, List, [], ◌∷◌, ◌++◌, length, All, ok}
use scoria_db.Base.Bytes.{Bytes, le_bytes, read, read_le, read-append, le_value-le_bytes}
use scoria_db.Engine.Sstable.Bloom.{
  BloomFilter, encode_words, encode, bits_len, decode_words, bloom_format_version, too_short,
  read_filter, decode_new_format,
}

-- The fields are uint64 values, and the bitset has the words for `m` bits.
pub record IsSized (b : BloomFilter) : Type 0 where
  pub m_fits : b.m < 2 ^ 64
  pub k_fits : b.k < 2 ^ 64
  pub n_fits : b.n < 2 ^ 64
  pub seed_fits : b.seed < 2 ^ 64
  pub words_fit : All (λ w. w < 2 ^ 64) b.bits
  pub words_count : length b.bits ≡ bits_len b.m

decode_words-encode_words :
    (ws : List ℕ) → All (λ w. w < 2 ^ 64) ws → decode_words (length ws) (encode_words ws) ≡ ok ws
unfolding decode_words encode_words
decode_words-encode_words [] h = refl
decode_words-encode_words (w ∷ ws) (f, h) =
    rw
      (
        read_le 8 w too_short (encode_words ws),
        decode_words-encode_words ws h,
        le_value-le_bytes 8 w f,
      )
      refl

read_filter-encode : (b : BloomFilter) → IsSized b → read_filter (encode b) ≡ ok b
unfolding read_filter encode
read_filter-encode b h =
    let words = encode_words b.bits in
    let tail = le_bytes 8 b.seed ++ words in
    rw
      (
        read_append_one (le_bytes 8 b.m ++ (le_bytes 8 b.k ++ (le_bytes 8 b.n ++ tail))),
        read_filter,
        read_le 8 b.m too_short (le_bytes 8 b.k ++ (le_bytes 8 b.n ++ tail)),
        read_le 8 b.k too_short (le_bytes 8 b.n ++ tail),
        read_le 8 b.n too_short tail,
        read_le 8 b.seed too_short words,
        le_value-le_bytes 8 b.m h.m_fits,
        ← h.words_count,
        decode_words-encode_words b.bits h.words_fit,
        le_value-le_bytes 8 b.k h.k_fits,
        le_value-le_bytes 8 b.n h.n_fits,
        le_value-le_bytes 8 b.seed h.seed_fits,
      )
      refl
  where
    read_append_one :
        (rest : Bytes)
        → read 1 too_short ((bloom_format_version ∷ []) ++ rest)
          ≡ ok (bloom_format_version ∷ [], rest)
    read_append_one rest = read-append 1 too_short (bloom_format_version ∷ []) rest refl

-- Decoding what Encode wrote gives the filter back, for a filter whose fields are uint64 values and
-- whose bitset has exactly the words that its number of bits needs.
pub decode_new_format-encode : (b : BloomFilter) → IsSized b → decode_new_format (encode b) ≡ b
unfolding decode_new_format
decode_new_format-encode b h = rw (read_filter-encode b h, decode_new_format) refl
