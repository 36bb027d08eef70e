-- ===== src/Engine/Sstable/Bloom/Runs.antt =====
-- A filter of one word, with two keys added.
use scoria_db.Base.{◌≡◌, refl, false, some, [], ◌∷◌, arith}
use scoria_db.Base.Bytes.{split, read}
use scoria_db.Engine.Sstable.Bloom.{
  BloomFilter, decode_new_format, empty_filter, bits_len, may_contain,
}
use scoria_db.Engine.Sstable.Bloom.Members.{IsUsable, IsFilterOf, add_all, add_all-IsFilterOf}

abbrev one_word : BloomFilter
one_word = record { bits = 0 ∷ []; m = 64; k = 7; n = 0; seed = 12345 }

one_word-IsUsable : IsUsable one_word
unfolding bits_len
one_word-IsUsable = record {
  sized = record {
    m_fits = omega arith;
    k_fits = omega arith;
    n_fits = omega arith;
    seed_fits = omega arith;
    words_fit = (omega arith, tt);
    words_count = refl;
  };
  m_rounds = omega arith;
  m_positive = omega arith;
  k_positive = omega arith;
}

add_all-IsFilterOf_example :
    (b' : BloomFilter) × (add_all ((1 ∷ 2 ∷ []) ∷ (3 ∷ []) ∷ []) one_word ≡ some b')
    × IsFilterOf ((1 ∷ 2 ∷ []) ∷ (3 ∷ []) ∷ []) one_word b'
add_all-IsFilterOf_example =
    add_all-IsFilterOf ((1 ∷ 2 ∷ []) ∷ (3 ∷ []) ∷ []) one_word one_word-IsUsable

-- Before it is added, a key is denied.
not_yet : may_contain one_word (3 ∷ []) ≡ some false
unfolding may_contain
not_yet = refl

cut_off : decode_new_format (1 ∷ 64 ∷ 0 ∷ []) ≡ empty_filter
unfolding decode_new_format read split
cut_off = refl
