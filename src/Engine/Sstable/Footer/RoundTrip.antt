-- ===== src/Engine/Sstable/Footer/RoundTrip.antt =====
-- The footer is read back as it was written.
use scoria_db.Base.{
  subst, ℕ, ◌+◌, ◌-◌, ◌^◌, ◌<◌, ◌≡◌, refl, ◌∙◌, [], ◌++◌, append-nil, arith, ltb, ◌==◌, ==_refl,
  length, drop, length-append, ok, err, choose_else, choose_then,
}
use scoria_db.Base.Bytes.{Bytes, le_bytes, read}
use scoria_db.Base.Bytes.{read_le, length-le_bytes, le_value-le_bytes, drop-append_of_length}
use scoria_db.Engine.Sstable.Block.{TableError, panic, too_small, bad_magic}
use scoria_db.Engine.Sstable.Footer.{
  Footer, encode_footer, decode_footer, read_footer, magic_number, footer_size,
}

-- The fields are uint64 values.
pub record IsFooter (f : Footer) : Type 0 where
  pub index_offset_fits : f.index_offset < 2 ^ 64
  pub index_size_fits : f.index_size < 2 ^ 64
  pub bloom_offset_fits : f.bloom_offset < 2 ^ 64
  pub bloom_size_fits : f.bloom_size < 2 ^ 64
  pub num_keys_fits : f.num_keys < 2 ^ 64
  pub magic_fits : f.magic < 2 ^ 64
  pub min_key_offset_fits : f.min_key_offset < 2 ^ 64
  pub min_key_length_fits : f.min_key_length < 2 ^ 64
  pub max_key_offset_fits : f.max_key_offset < 2 ^ 64
  pub max_key_length_fits : f.max_key_length < 2 ^ 64

length_field : (v n : ℕ) (rest : Bytes) → length rest ≡ n → length (le_bytes 8 v ++ rest) ≡ 8 + n
length_field v n rest e =
    omega (arith, length-append {0} (le_bytes 8 v) rest, length-le_bytes 8 v, e)

pub length-encode_footer : (f : Footer) → length (encode_footer f) ≡ footer_size
unfolding encode_footer
length-encode_footer f = length_field f.index_offset 72 _ (
    length_field f.index_size 64 _ (
      length_field f.bloom_offset 56 _ (
        length_field f.bloom_size 48 _ (
          length_field f.num_keys 40 _ (
            length_field f.magic 32 _ (
              length_field f.min_key_offset 24 _ (
                length_field f.min_key_length 16 _
                  (length_field f.max_key_offset 8 _ (length-le_bytes 8 f.max_key_length)))))))))

read_last : (v : ℕ) → read {E = TableError} 8 panic (le_bytes 8 v) ≡ ok (le_bytes 8 v, [])
read_last v =
    subst (λ l. read {E = TableError} 8 panic l ≡ ok (le_bytes 8 v, [])) (append-nil (le_bytes 8 v))
      (read_le 8 v panic [])

decode_footer-encode_footer : (f : Footer) → IsFooter f → decode_footer (encode_footer f) ≡ ok f
unfolding decode_footer encode_footer
decode_footer-encode_footer f h =
    let t9 = le_bytes 8 f.max_key_offset ++ le_bytes 8 f.max_key_length in
    let t8 = le_bytes 8 f.min_key_length ++ t9 in
    let t7 = le_bytes 8 f.min_key_offset ++ t8 in
    let t6 = le_bytes 8 f.magic ++ t7 in
    let t5 = le_bytes 8 f.num_keys ++ t6 in
    let t4 = le_bytes 8 f.bloom_size ++ t5 in
    let t3 = le_bytes 8 f.bloom_offset ++ t4 in
    let t2 = le_bytes 8 f.index_size ++ t3 in
    rw
      (
        read_le 8 f.index_offset panic t2,
        decode_footer,
        read_le 8 f.index_size panic t3,
        read_le 8 f.bloom_offset panic t4,
        read_le 8 f.bloom_size panic t5,
        read_le 8 f.num_keys panic t6,
        read_le 8 f.magic panic t7,
        read_le 8 f.min_key_offset panic t8,
        read_le 8 f.min_key_length panic t9,
        read_le 8 f.max_key_offset panic (le_bytes 8 f.max_key_length),
        read_last f.max_key_length,
        le_value-le_bytes 8 f.index_offset h.index_offset_fits,
        le_value-le_bytes 8 f.index_size h.index_size_fits,
        le_value-le_bytes 8 f.bloom_offset h.bloom_offset_fits,
        le_value-le_bytes 8 f.bloom_size h.bloom_size_fits,
        le_value-le_bytes 8 f.num_keys h.num_keys_fits,
        le_value-le_bytes 8 f.magic h.magic_fits,
        le_value-le_bytes 8 f.min_key_offset h.min_key_offset_fits,
        le_value-le_bytes 8 f.min_key_length h.min_key_length_fits,
        le_value-le_bytes 8 f.max_key_offset h.max_key_offset_fits,
        le_value-le_bytes 8 f.max_key_length h.max_key_length_fits,
      )
      refl

-- The footer at the end of a file is read as it was written, if its fields are uint64 values and its
-- magic number is that of a table.
pub read_footer-encode_footer :
    (before : Bytes) (f : Footer)
    → IsFooter f
    → f.magic ≡ magic_number
    → read_footer (before ++ encode_footer f) ≡ ok f
unfolding read_footer
read_footer-encode_footer before f h magic =
    let file = before ++ encode_footer f in
    let len : length file ≡ length before + 80 =
      omega (arith, length-append {0} before (encode_footer f), length-encode_footer f) in
    let back : drop (length file - footer_size) file ≡ encode_footer f =
      drop-append_of_length (length file - footer_size) before (encode_footer f)
        (omega (arith, len)) in
    choose_else (ltb (length file) footer_size) (err too_small) _ (ground (arith, len))
    ∙ rw (back, decode_footer-encode_footer f h)
        (choose_then (f.magic == magic_number) (ok f) (err bad_magic)
          (rw magic (==_refl magic_number)))
