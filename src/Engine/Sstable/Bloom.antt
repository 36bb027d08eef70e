-- ===== src/Engine/Sstable/Bloom.antt =====
-- internal/engine/sstable/bloom.go: the Bloom filter of a table, its hashing and its serialised forms.
-- What the code computes on floating-point numbers and draws at random is an argument.
pub mod RoundTrip
mod Positions
pub mod Members
mod Runs
use scoria_db.Base.{
  ℕ, zero, suc, ◌+◌, ◌-◌, ◌*◌, ◌/◌, ◌%◌, ◌^◌, Bool, true, false, not, ◌||◌, Option, none, some,
  List, [], ◌∷◌, ◌++◌, ltb, ◌==◌, if◌then◌else◌, length, get_elem?, set, drop, replicate, Result,
  ok, err, ◌>>=◌,
}
use scoria_db.Base.Bytes.{Bytes, le_bytes, le_value, read}
use Prim.Native.Nat.{bit_and, bit_or, bit_xor}

abbrev pub bloom_format_version : ℕ
bloom_format_version = 1

pub record BloomFilter : Type 0 where
  pub bits : List ℕ
  pub m : ℕ
  pub k : ℕ
  pub n : ℕ
  pub seed : ℕ

abbrev pub empty_filter : BloomFilter
empty_filter = record { bits = []; m = 0; k = 0; n = 0; seed = 0 }

-- The words of the bitset, as little-endian uint64 values.
unfoldable pub encode_words : List ℕ → Bytes
encode_words [] = []
encode_words (w ∷ ws) = le_bytes 8 w ++ encode_words ws

unfoldable pub encode : BloomFilter → Bytes
unfolding encode_words
encode b =
    (bloom_format_version ∷ [])
    ++ (le_bytes 8 b.m
        ++ (le_bytes 8 b.k ++ (le_bytes 8 b.n ++ (le_bytes 8 b.seed ++ encode_words b.bits))))

pub data ShortData : Type 0 where
  too_short : ShortData

-- `(m + 63) / 64` on uint64
unfoldable pub bits_len : ℕ → ℕ
bits_len m = (m + 63) % 2 ^ 64 / 64

unfoldable pub decode_words : ℕ → Bytes → Result ShortData (List ℕ)
decode_words zero rest = ok []
decode_words (suc count) rest = do
  (word, rest) ← read 8 too_short rest
  words ← decode_words count rest
  ok (le_value word ∷ words)

-- The reads of decodeNewFormat; they fail where the data is too short for the header or the bits.
unfoldable pub read_filter : Bytes → Result ShortData BloomFilter
unfolding decode_words bits_len
read_filter input = do
  (version, rest) ← read 1 too_short input
  (m, rest) ← read 8 too_short rest
  (k, rest) ← read 8 too_short rest
  (n, rest) ← read 8 too_short rest
  (seed, rest) ← read 8 too_short rest
  bits ← decode_words (bits_len (le_value m)) rest
  ok (record { bits = bits; m = le_value m; k = le_value k; n = le_value n; seed = le_value seed })

-- Data that is too short gives the empty filter.
unfoldable pub decode_new_format : Bytes → BloomFilter
unfolding read_filter
decode_new_format input = elim (read_filter input) [ ok b ↦ b | err e ↦ empty_filter ]

abbrev pub min_bits : ℕ
min_bits = 64

abbrev pub max_bits : ℕ
max_bits = 10000000

abbrev pub max_keys : ℕ
max_keys = 1000000

-- optimalBits behind the logarithms, whose rounded result is `bits`; `&^ 63` clears the low six bits.
unfoldable pub optimal_bits : ℕ → ℕ → ℕ
optimal_bits n bits =
    let whole = (bits + 63) % 2 ^ 64 / 64 * 64 in
    let enough = if ltb whole min_bits then min_bits else whole in
    if n == 0 then min_bits else if ltb max_bits enough then max_bits else enough

-- optimalHashCount, where `hashes` is the rounded product.
unfoldable pub optimal_hash_count : ℕ → ℕ → ℕ
optimal_hash_count n hashes =
    if n == 0 then 1 else if ltb hashes 1 then 1 else if ltb 30 hashes then 30 else hashes

-- The clamping of `expectedKeys`; the argument is 0 for an int that is not positive.
unfoldable pub sizing_keys : ℕ → ℕ
sizing_keys expected_keys =
    if expected_keys == 0 then 1 else if ltb max_keys expected_keys then max_keys else expected_keys

-- `bits_for n` and `hashes_for m n` are the results of math.Ceil, `seed` the random one.
unfoldable pub new_bloom_filter : (ℕ → ℕ) → (ℕ → ℕ → ℕ) → ℕ → ℕ → BloomFilter
unfolding optimal_bits optimal_hash_count sizing_keys bits_len
new_bloom_filter bits_for hashes_for seed expected_keys =
    let n = sizing_keys expected_keys in
    let m = optimal_bits n (bits_for n) in
    record {
      bits = replicate (bits_len m) 0;
      m = m;
      k = optimal_hash_count n (hashes_for m n);
      n = 0;
      seed = seed;
    }

-- The loop of hash over the bytes of the key: FNV-1a.
unfoldable pub hash_bytes : ℕ → Bytes → ℕ
hash_bytes h [] = h
hash_bytes h (c ∷ key) = hash_bytes (bit_xor h c * 0x100000001b3 % 2 ^ 64) key

-- `h ^ (h >> 33)`
unfoldable pub mix : ℕ → ℕ
mix h = bit_xor h (h / 2 ^ 33)

unfoldable pub second_hash : ℕ → ℕ
unfolding mix
second_hash h1 = mix (
    mix (mix (bit_xor h1 0x9e3779b97f4a7c15) * 0xff51afd7ed558ccd % 2 ^ 64)
    * 0xc4ceb9fe1a85ec53
    % 2 ^ 64)

-- `(h1 + i*h2) % m` on uint64, for the hashes of a key
unfoldable pub bit_position : BloomFilter → Bytes → ℕ → ℕ
unfolding hash_bytes second_hash
bit_position b key i =
    let h1 = hash_bytes b.seed key in (h1 + i * second_hash h1 % 2 ^ 64) % 2 ^ 64 % b.m

-- `bits[pos/64] |= uint64(1) << (pos % 64)`; an index out of range panics.
unfoldable pub set_bit : List ℕ → ℕ → Option (List ℕ)
set_bit bits pos = elim (get_elem? bits (pos / 64)) [
  | none ↦ none
  | some word ↦ some (set bits (pos / 64) (bit_or word (2 ^ (pos % 64))))
]

unfoldable pub test_bit : List ℕ → ℕ → Option Bool
test_bit bits pos = elim (get_elem? bits (pos / 64)) [
  | none ↦ none
  | some word ↦ some (not (bit_and word (2 ^ (pos % 64)) == 0))
]

-- The loop of Add over the positions `at i`, of which `left` are left.
unfoldable pub set_bits : (ℕ → ℕ) → ℕ → ℕ → List ℕ → Option (List ℕ)
unfolding set_bit
set_bits at zero i bits = some bits
set_bits at (suc left) i bits = elim (set_bit bits (at i)) [
  | none ↦ none
  | some bits' ↦ set_bits at left (suc i) bits'
]

unfoldable pub test_bits : (ℕ → ℕ) → ℕ → ℕ → List ℕ → Option Bool
unfolding test_bit
test_bits at zero i bits = some true
test_bits at (suc left) i bits = elim (test_bit bits (at i)) [
  | none ↦ none
  | some false ↦ some false
  | some true ↦ test_bits at left (suc i) bits
]

unfoldable pub add : Bytes → BloomFilter → Option BloomFilter
unfolding set_bits bit_position
add key b =
    if b.m == 0 || b.k == 0 then some b else (elim (set_bits (bit_position b key) b.k 0 b.bits) [
      | none ↦ none
      | some bits ↦ some (record b { bits = bits; n = (b.n + 1) % 2 ^ 64 })
    ])

unfoldable pub may_contain : BloomFilter → Bytes → Option Bool
unfolding test_bits bit_position
may_contain b key =
    if b.m == 0 || b.k == 0 then some false else test_bits (bit_position b key) b.k 0 b.bits

-- The loop of decodeLegacyFormat: byte `i` goes to its place in word `i / 8`.
unfoldable pub legacy_words : ℕ → Bytes → List ℕ → List ℕ
legacy_words i [] bits = bits
legacy_words i (b ∷ rest) bits = elim (get_elem? bits (i / 8)) [
  | none ↦ legacy_words (suc i) rest bits
  | some word ↦ legacy_words (suc i) rest (set bits (i / 8) (bit_or word (b * 2 ^ (i % 8 * 8))))
]

-- `hashes_for m` is the rounded product of optimalHashCount, and `n` its estimate of the keys.
unfoldable pub decode_legacy_format : (ℕ → ℕ) → (ℕ → ℕ) → ℕ → Bytes → BloomFilter
unfolding legacy_words optimal_hash_count
decode_legacy_format keys_for hashes_for seed input =
    let count = length input - 4 in
    let m = count * 8 in
    if ltb (length input) 4 then empty_filter else record {
      bits = legacy_words 0 (drop 4 input) (replicate ((count + 7) / 8) 0);
      m = m;
      k = optimal_hash_count (keys_for m) (hashes_for m);
      n = 0;
      seed = seed;
    }

-- DecodeBloomFilter, where `legacy` decodes what does not start with the version byte.
unfoldable pub decode_bloom_filter : (Bytes → BloomFilter) → Bytes → BloomFilter
unfolding decode_new_format
decode_bloom_filter legacy [] = empty_filter
decode_bloom_filter legacy (b ∷ rest) =
    if b == bloom_format_version then decode_new_format (b ∷ rest) else legacy (b ∷ rest)
