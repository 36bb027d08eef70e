-- ===== src/Engine/Sstable/Footer.antt =====
-- internal/engine/sstable/writer.go and reader.go: the footer, ten little-endian uint64 values.
pub mod RoundTrip
use scoria_db.Base.{ℕ, ◌-◌, ◌++◌, ltb, ◌==◌, if◌then◌else◌, length, drop, Result, ok, err, ◌>>=◌}
use scoria_db.Base.Bytes.{Bytes, le_bytes, le_value, read}
use scoria_db.Engine.Sstable.Block.{TableError, too_small, bad_magic, panic}

-- "SCORIA_S" in ASCII
abbrev pub magic_number : ℕ
magic_number = 0x53434F5249415F53

abbrev pub footer_size : ℕ
footer_size = 80

pub record Footer : Type 0 where
  pub index_offset : ℕ
  pub index_size : ℕ
  pub bloom_offset : ℕ
  pub bloom_size : ℕ
  pub num_keys : ℕ
  pub magic : ℕ
  pub min_key_offset : ℕ
  pub min_key_length : ℕ
  pub max_key_offset : ℕ
  pub max_key_length : ℕ

-- binary.Write writes the fields one behind the other, in the order of their declaration.
unfoldable pub encode_footer : Footer → Bytes
encode_footer f =
    le_bytes 8 f.index_offset
    ++ (le_bytes 8 f.index_size
        ++ (le_bytes 8 f.bloom_offset
            ++ (le_bytes 8 f.bloom_size
                ++ (le_bytes 8 f.num_keys
                    ++ (le_bytes 8 f.magic
                        ++ (le_bytes 8 f.min_key_offset
                            ++ (le_bytes 8 f.min_key_length
                                ++ (le_bytes 8 f.max_key_offset
                                    ++ le_bytes 8 f.max_key_length))))))))

unfoldable pub decode_footer : Bytes → Result TableError Footer
decode_footer rest = do
  (index_offset, rest) ← read 8 panic rest
  (index_size, rest) ← read 8 panic rest
  (bloom_offset, rest) ← read 8 panic rest
  (bloom_size, rest) ← read 8 panic rest
  (num_keys, rest) ← read 8 panic rest
  (magic, rest) ← read 8 panic rest
  (min_key_offset, rest) ← read 8 panic rest
  (min_key_length, rest) ← read 8 panic rest
  (max_key_offset, rest) ← read 8 panic rest
  (max_key_length, rest) ← read 8 panic rest
  ok (record {
    index_offset = le_value index_offset;
    index_size = le_value index_size;
    bloom_offset = le_value bloom_offset;
    bloom_size = le_value bloom_size;
    num_keys = le_value num_keys;
    magic = le_value magic;
    min_key_offset = le_value min_key_offset;
    min_key_length = le_value min_key_length;
    max_key_offset = le_value max_key_offset;
    max_key_length = le_value max_key_length;
  })

-- The front of Open: the size of the file, the footer and its magic number.
unfoldable pub read_footer : Bytes → Result TableError Footer
unfolding decode_footer
read_footer bytes = if ltb (length bytes) footer_size then err too_small else (do
  footer ← decode_footer (drop (length bytes - footer_size) bytes)
  if footer.magic == magic_number then ok footer else err bad_magic)
