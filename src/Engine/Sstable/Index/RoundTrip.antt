-- ===== src/Engine/Sstable/Index/RoundTrip.antt =====
-- The index is read back as it was written.
use scoria_db.Base.{
  ℕ, zero, suc, ◌+◌, ◌%◌, ◌^◌, ◌≤◌, ◌<◌, ◌≡◌, refl, ap, ◌∙◌, List, [], ◌∷◌, ◌++◌, append_assoc,
  arith, ltb, length, All, length-append, ok, err, ◌>>=◌, choose_else,
}
use scoria_db.Base.Bytes.{Bytes, le_bytes}
use scoria_db.Base.Bytes.{read_le, read-append, le_value-uint32, length-le_bytes, le_value-le_bytes}
use scoria_db.Base.Slices.{slice-append}
use scoria_db.Engine.Sstable.Block.{panic, truncated, out_of_range}
use scoria_db.Engine.Sstable.Index.{
  IndexEntry, encode_index_entry, encode_index, parse_index_entry, parse_index_entries, parse_index,
}

-- A key whose length fits its field, and an offset that is a uint64 value.
pub record IsIndexEntry (entry : IndexEntry) : Type 0 where
  pub key_fits : length entry.key < 2 ^ 32
  pub offset_fits : entry.offset < 2 ^ 64

parse_index_entry-encode_index_entry :
    (entry : IndexEntry) (rest : Bytes)
    → IsIndexEntry entry
    → parse_index_entry (encode_index_entry entry ++ rest) ≡ ok (entry, rest)
unfolding parse_index_entry encode_index_entry
parse_index_entry-encode_index_entry entry rest h =
    let key_len = le_bytes 4 (length entry.key % 2 ^ 32) in
    let offset = le_bytes 8 entry.offset in
    let whole : (key_len ++ (entry.key ++ offset)) ++ rest
        ≡ key_len ++ (entry.key ++ (offset ++ rest)) =
      append_assoc key_len (entry.key ++ offset) rest
      ∙ ap (λ xs. key_len ++ xs) (append_assoc entry.key offset rest) in
    rw
      (
        whole,
        read_le 4 (length entry.key % 2 ^ 32) truncated (entry.key ++ (offset ++ rest)),
        parse_index_entry,
        le_value-uint32 (length entry.key) h.key_fits,
        read-append (length entry.key) truncated entry.key (offset ++ rest) refl,
        read_le 8 entry.offset truncated rest,
        le_value-le_bytes 8 entry.offset h.offset_fits,
      )
      refl

length-encode_index_entry :
    (entry : IndexEntry) → length (encode_index_entry entry) ≡ length entry.key + 12
unfolding encode_index_entry
length-encode_index_entry entry = omega (
  arith,
  length-append {0} (le_bytes 4 (length entry.key % 2 ^ 32)) (entry.key ++ le_bytes 8 entry.offset),
  length-append {0} entry.key (le_bytes 8 entry.offset),
  length-le_bytes 4 (length entry.key % 2 ^ 32),
  length-le_bytes 8 entry.offset,
)

-- On input that is not empty and fuel for it, the loop does a round.
parse_round :
    (fuel : ℕ) (input rest : Bytes) (entry : IndexEntry)
    → 0 < length input
    → parse_index_entry input ≡ ok (entry, rest)
    → parse_index_entries (suc fuel) input
      ≡ (do entries ← parse_index_entries fuel rest; ok (entry ∷ entries))
unfolding parse_index_entries
parse_round fuel [] rest entry p h = absurd (omega arith)
parse_round fuel (b ∷ input) rest entry p h = rw h refl

length-encode_index_cons :
    (entry : IndexEntry) (entries : List IndexEntry)
    → length (encode_index (entry ∷ entries))
      ≡ length entry.key + 12 + length (encode_index entries)
unfolding encode_index
length-encode_index_cons entry entries =
    length-append (encode_index_entry entry) (encode_index entries)
    ∙ ap (λ n. n + length (encode_index entries)) (length-encode_index_entry entry)

parse_index_entries-encode_index :
    (entries : List IndexEntry) (fuel : ℕ)
    → All IsIndexEntry entries
    → length (encode_index entries) ≤ fuel
    → parse_index_entries fuel (encode_index entries) ≡ ok entries
unfolding encode_index parse_index_entries
parse_index_entries-encode_index [] fuel h f = refl
parse_index_entries-encode_index (entry ∷ entries) zero (h, hs) f =
    absurd (omega (arith, f, length-encode_index_cons entry entries))
parse_index_entries-encode_index (entry ∷ entries) (suc fuel) (h, hs) f =
    let len = length-encode_index_cons entry entries in
    parse_round fuel (encode_index (entry ∷ entries)) (encode_index entries) entry
      (omega (arith, len)) (parse_index_entry-encode_index_entry entry (encode_index entries) h)
    ∙ rw (parse_index_entries-encode_index entries fuel hs (omega (arith, f, len))) refl

-- The index that writeFooter wrote is parsed from its offset as the entries that it was written
-- from, whatever stands around it, for keys shorter than 2 ^ 32 bytes, uint64 offsets and a file
-- shorter than 2 ^ 64 bytes.
pub parse_index-encode_index :
    (before : Bytes) (entries : List IndexEntry) (after : Bytes)
    → All IsIndexEntry entries
    → length before + length (encode_index entries) + length after < 2 ^ 64
    → parse_index
        (before ++ (encode_index entries ++ after))
        (length before)
        (length (encode_index entries))
      ≡ ok entries
unfolding parse_index
parse_index-encode_index before entries after h fits =
    let index = encode_index entries in
    let file = before ++ (index ++ after) in
    let end = (length before + length index) % 2 ^ 64 in
    let inside : length before + length index ≡ end = omega (arith, fits) in
    choose_else (ltb (length file) end) (err out_of_range) _ (
      ground
        (arith, inside, length-append {0} before (index ++ after), length-append {0} index after))
    ∙ rw (slice-append panic (length before) end before index after refl inside)
        (parse_index_entries-encode_index entries (length index) h (omega arith))
