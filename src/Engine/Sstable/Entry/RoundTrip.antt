-- ===== src/Engine/Sstable/Entry/RoundTrip.antt =====
-- Entries are read back as they were written.
use scoria_db.Base.{
  ℕ, ◌+◌, ◌%◌, ◌^◌, ◌≤◌, ◌<◌, ◌≡◌, refl, ap, ◌∙◌, inl, inr, ◌++◌, append_assoc, arith,
  if◌then◌else◌, Bool-cases, length, length-append, ok, ok_of_bind,
}
use scoria_db.Base.Bytes.{Bytes, le_bytes, le_value, read}
use scoria_db.Base.Bytes.{read_le, read-append, le_value-uint32, length-le_bytes, read-eq-ok}
use scoria_db.Mvcc.{MvccKey}
use scoria_db.Engine.Sstable.Encoding.{encode_mvcc_key, corrupted}
use scoria_db.Engine.Sstable.Entry.{
  RawEntry, entry_bytes, encode_entry, encode_entry_tagged, encode_raw, read_entry, inline_value,
  verbatim_value,
}

-- What stands behind the key of an entry.
unfoldable pub stored : RawEntry → Bytes
unfolding inline_value verbatim_value
stored entry = if entry.tagged then verbatim_value entry.value else inline_value entry.value

-- An entry whose lengths and timestamp fit their fields.
pub record IsWritable (entry : RawEntry) : Type 0 where
  pub key_fits : length entry.key.key + 12 < 2 ^ 32
  pub value_fits : length (stored entry) < 2 ^ 32
  pub timestamp_fits : entry.key.timestamp < 2 ^ 64

pub length-encode_mvcc_key : (k : MvccKey) → length (encode_mvcc_key k) ≡ length k.key + 12
unfolding encode_mvcc_key
length-encode_mvcc_key k = omega (
  arith,
  length-append {0} (le_bytes 4 (length k.key % 2 ^ 32)) (k.key ++ le_bytes 8 k.timestamp),
  length-append {0} k.key (le_bytes 8 k.timestamp),
  length-le_bytes 4 (length k.key % 2 ^ 32),
  length-le_bytes 8 k.timestamp,
)

pub encode_raw-eq :
    (entry : RawEntry) → encode_raw entry ≡ entry_bytes (encode_mvcc_key entry.key) (stored entry)
unfolding encode_raw stored encode_entry encode_entry_tagged
encode_raw-eq entry = elim (Bool-cases entry.tagged) [ inl e ↦ rw e refl | inr e ↦ rw e refl ]

read_entry-entry_bytes :
    (key value rest : Bytes)
    → length key < 2 ^ 32
    → length value < 2 ^ 32
    → read_entry (entry_bytes key value ++ rest) ≡ ok (key, value, rest)
unfolding read_entry entry_bytes
read_entry-entry_bytes key value rest k v =
    let key_len = le_bytes 4 (length key % 2 ^ 32) in
    let val_len = le_bytes 4 (length value % 2 ^ 32) in
    let tail = key ++ (value ++ rest) in
    let whole : (key_len ++ (val_len ++ (key ++ value))) ++ rest ≡ key_len ++ (val_len ++ tail) =
      append_assoc key_len (val_len ++ (key ++ value)) rest
      ∙ ap (λ xs. key_len ++ xs)
          (append_assoc val_len (key ++ value) rest
            ∙ ap (λ xs. val_len ++ xs) (append_assoc key value rest)) in
    rw
      (
        whole,
        read_le 4 (length key % 2 ^ 32) corrupted (val_len ++ tail),
        read_entry,
        read_le 4 (length value % 2 ^ 32) corrupted tail,
        le_value-uint32 (length key) k,
        read-append (length key) corrupted key (value ++ rest) refl,
        le_value-uint32 (length value) v,
        read-append (length value) corrupted value rest refl,
      )
      refl

-- Behind whatever follows it, a written entry is read as the bytes of its key and its stored value.
pub read_entry-encode_raw :
    (entry : RawEntry) (rest : Bytes)
    → IsWritable entry
    → read_entry (encode_raw entry ++ rest) ≡ ok (encode_mvcc_key entry.key, stored entry, rest)
read_entry-encode_raw entry rest h = rw (encode_raw-eq entry) (
    read_entry-entry_bytes (encode_mvcc_key entry.key) (stored entry) rest
      (omega (arith, length-encode_mvcc_key entry.key, h.key_fits)) h.value_fits)

pub length-encode_raw :
    (entry : RawEntry)
    → length (encode_raw entry) ≡ 20 + length entry.key.key + length (stored entry)
unfolding entry_bytes
length-encode_raw entry =
    let key = encode_mvcc_key entry.key in
    let value = stored entry in
    let key_len = le_bytes 4 (length key % 2 ^ 32) in
    let val_len = le_bytes 4 (length value % 2 ^ 32) in
    rw (encode_raw-eq entry) (
      omega (
        arith,
        length-encode_mvcc_key entry.key,
        length-append {0} key_len (val_len ++ (key ++ value)),
        length-append {0} val_len (key ++ value),
        length-append {0} key value,
        length-le_bytes 4 (length key % 2 ^ 32),
        length-le_bytes 4 (length value % 2 ^ 32),
      ))

read_shorter :
    {E : Type 0} (n : ℕ) (e : E) (l : Bytes) (p : Bytes × Bytes)
    → read n e l ≡ ok p
    → length p.1 + n ≡ length l
read_shorter n e l p h =
    let (whole, len) = read-eq-ok n e l p.0 p.1 h in
    omega (arith, ap (λ xs. length {A = ℕ} xs) whole, length-append {0} p.0 p.1, len)

-- What is left behind an entry is shorter by eight bytes at least.
pub read_entry-lt :
    (l : Bytes) (p : Bytes × Bytes × Bytes) → read_entry l ≡ ok p → length p.2 + 8 ≤ length l
unfolding read_entry
read_entry-lt l p h =
    let (key_len, h1, k1) = ok_of_bind (read 4 corrupted l) _ h in
    let (val_len, h2, k2) = ok_of_bind (read 4 corrupted key_len.1) _ k1 in
    let (key, h3, k3) = ok_of_bind (read (le_value key_len.0) corrupted val_len.1) _ k2 in
    let (val, h4, k4) = ok_of_bind (read (le_value val_len.0) corrupted key.1) _ k3 in
    let last : val.1 ≡ p.2 = ground (arith, k4) in
    omega (
      arith,
      ap (λ xs. length {A = ℕ} xs) last,
      read_shorter 4 corrupted l key_len h1,
      read_shorter 4 corrupted key_len.1 val_len h2,
      read_shorter (le_value key_len.0) corrupted val_len.1 key h3,
      read_shorter (le_value val_len.0) corrupted key.1 val h4,
    )
