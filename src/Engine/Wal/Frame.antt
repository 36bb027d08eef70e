-- ===== src/Engine/Wal/Frame.antt =====
-- One record of the log: it is read back as it was written, and a part of it is refused.
use scoria_db.Base.{
  subst, ℕ, zero, suc, ◌+◌, ◌%◌, ◌^◌, ◌<◌, ◌≡◌, refl, ap, ◌∙◌, some, [], ◌∷◌, ◌++◌, append-nil,
  append_assoc, arith, ◌==◌, length, take, drop, length-append, Result, ok, err, ◌>>=◌, ok_of_bind,
}
use scoria_db.Base.Bytes.{drop-append_past, be_value-uint32}
use scoria_db.Base.Bytes.{Bytes, be_bytes, be_value, be_value-be_bytes, be_value-one}
use scoria_db.Base.Bytes.{
  read-append, read-eq-ok, be_value-uint16, length-be_bytes, take-append_of_length,
  drop-append_of_length,
}
use scoria_db.Engine.Wal.Crc.{checksum, checksum-lt}
use scoria_db.Engine.Wal.{
  WalEntry, unexpected_eof, flags_of, encode_body, read_full, check_crc, encode_wal_entry_to,
  decode_wal_entry, ReadError,
}

-- What the fields of the format can hold. encodeWalEntryTo converts the lengths without a check.
pub record Fits (entry : WalEntry) : Type 0 where
  pub key_fits : length entry.key < 2 ^ 16
  pub value_fits : length entry.value < 2 ^ 32
  pub timestamp_fits : entry.timestamp < 2 ^ 64

pub read_full-append :
    (n : ℕ) (xs ys : Bytes) → length xs ≡ n → read_full n (xs ++ ys) ≡ ok (xs, ys)
unfolding read_full
read_full-append zero [] ys h = refl
read_full-append zero (x ∷ xs) ys h = absurd (omega arith)
read_full-append (suc n) [] ys h = absurd (omega arith)
read_full-append (suc n) (x ∷ xs) ys h = read-append (suc n) unexpected_eof (x ∷ xs) ys h

pub read_full-eq-ok :
    (n : ℕ) (r xs ys : Bytes) → read_full n r ≡ ok (xs, ys) → (xs ++ ys ≡ r) × (length xs ≡ n)
unfolding read_full
read_full-eq-ok zero r xs ys h = ground arith
read_full-eq-ok (suc n) [] xs ys h = cc
read_full-eq-ok (suc n) (b ∷ r) xs ys h = read-eq-ok (suc n) unexpected_eof (b ∷ r) xs ys h

read_full_lengths :
    (n : ℕ) (r : Bytes) {p : Bytes × Bytes} → read_full n r ≡ ok p → length p.1 + n ≡ length r
read_full_lengths n r {p} h =
    let (whole, len) = read_full-eq-ok n r p.0 p.1 h in
    omega (arith, len, length-append {0} p.0 p.1, ap length whole)

-- Bytes behind what a read takes stay behind it.
read_full-extend :
    (n : ℕ) (r more : Bytes) {p : Bytes × Bytes}
    → read_full n r ≡ ok p
    → read_full n (r ++ more) ≡ ok (p.0, p.1 ++ more)
read_full-extend n r more {p} h =
    let (whole, len) = read_full-eq-ok n r p.0 p.1 h in
    subst (λ l. read_full n (l ++ more) ≡ ok (p.0, p.1 ++ more)) whole
      (rw append_assoc (read_full-append n p.0 (p.1 ++ more) len))

header : WalEntry → Bytes
header entry =
    (entry.op ∷ flags_of entry.is_large ∷ [])
    ++ (be_bytes 8 entry.timestamp
        ++ (be_bytes 2 (length entry.key % 2 ^ 16) ++ be_bytes 4 (length entry.value % 2 ^ 32)))

encode_body-header :
    (entry : WalEntry) → encode_body entry ≡ header entry ++ (entry.key ++ entry.value)
unfolding encode_body header
encode_body-header entry = simp append_assoc

length-header : (entry : WalEntry) → length (header entry) ≡ 16
unfolding header
length-header entry = simp (length-append, length-be_bytes)

op_field : (entry : WalEntry) → be_value (take 1 (header entry)) ≡ entry.op
unfolding header
op_field entry = be_value-one entry.op

flag_field :
    (entry : WalEntry) → (be_value (take 1 (drop 1 (header entry))) % 2 == 1) ≡ entry.is_large
unfolding header
flag_field entry = ground (arith, be_value-one (flags_of entry.is_large))

-- A record is cut into its parts by the lengths in its header.
pub decode_wal_entry-parts :
    (head key value crc rest : Bytes)
    → length head ≡ 16
    → be_value (take 2 (drop 10 head)) ≡ length key
    → be_value (take 4 (drop 12 head)) ≡ length value
    → length crc ≡ 4
    → decode_wal_entry (head ++ (key ++ (value ++ (crc ++ rest))))
      ≡ (check_crc head key value crc >>= λ entry. ok (entry, rest))
unfolding decode_wal_entry
decode_wal_entry-parts head key value crc rest h hk hv hc = rw (read_full-append 16 head _ h) (
    rw (hk, read_full-append (length key) key _ refl)
      (rw (hv, read_full-append (length value) value _ refl)
        (rw (read_full-append 4 crc rest hc) refl)))

take_all : (n : ℕ) (xs : Bytes) → length xs ≡ n → take n xs ≡ xs
take_all n xs e = rw append-nil at (take-append_of_length n xs [] e)

pub encoded_bytes :
    (entry : WalEntry) (capacity : ℕ) (bytes : Bytes)
    → encode_wal_entry_to entry capacity ≡ some bytes
    → bytes ≡ encode_body entry ++ be_bytes 4 (checksum (encode_body entry))
unfolding encode_wal_entry_to
encoded_bytes entry capacity bytes e = ground arith

encoded-header :
    (entry : WalEntry) (crc : Bytes)
    → encode_body entry ++ crc ≡ header entry ++ (entry.key ++ (entry.value ++ crc))
encoded-header entry crc = rw encode_body-header (simp append_assoc)

module _ (entry : WalEntry) (f : Fits entry) where
  key_length : be_value (take 2 (drop 10 (header entry))) ≡ length entry.key
  unfolding header
  key_length = rw (drop-append_of_length 8 (be_bytes 8 entry.timestamp) _ (length-be_bytes 8 _)) (
      rw (take-append_of_length 2 (be_bytes 2 (length entry.key % 2 ^ 16)) _ (length-be_bytes 2 _))
        (be_value-uint16 (length entry.key) f.key_fits))

  value_length : be_value (take 4 (drop 12 (header entry))) ≡ length entry.value
  unfolding header
  value_length = rw (drop-append_past 8 2 (be_bytes 8 entry.timestamp) _ (length-be_bytes 8 _)) (
      rw (drop-append_of_length 2 (be_bytes 2 (length entry.key % 2 ^ 16)) _ (length-be_bytes 2 _))
        (rw (take_all 4 (be_bytes 4 (length entry.value % 2 ^ 32)) (length-be_bytes 4 _))
          (be_value-uint32 (length entry.value) f.value_fits)))

  timestamp_field : be_value (take 8 (drop 2 (header entry))) ≡ entry.timestamp
  unfolding header
  timestamp_field =
      rw (take-append_of_length 8 (be_bytes 8 entry.timestamp) _ (length-be_bytes 8 _))
        (be_value-be_bytes 8 entry.timestamp (omega (arith, f.timestamp_fits)))

  check_crc-header :
      check_crc (header entry) entry.key entry.value (be_bytes 4 (checksum (encode_body entry)))
      ≡ ok entry
  unfolding check_crc
  check_crc-header = ground (
    arith,
    encode_body-header entry,
    be_value-be_bytes 4 (checksum (encode_body entry))
        (omega (arith, checksum-lt (encode_body entry))),
    op_field entry,
    flag_field entry,
    timestamp_field,
  )

  -- A record is read back whole, whatever follows it.
  pub decode_wal_entry-encoded :
      (capacity : ℕ) (bytes rest : Bytes)
      → encode_wal_entry_to entry capacity ≡ some bytes
      → decode_wal_entry (bytes ++ rest) ≡ ok (entry, rest)
  decode_wal_entry-encoded capacity bytes rest e =
      let crc = be_bytes 4 (checksum (encode_body entry)) in
      rw (encoded_bytes entry capacity bytes e ∙ encoded-header entry crc) (
        simp append_assoc (
          decode_wal_entry-parts (header entry) entry.key entry.value crc rest (length-header entry)
            key_length value_length (length-be_bytes 4 _)
          ∙ rw check_crc-header))

-- A read that succeeds takes bytes off the front, and gives the same with more bytes behind.
pub decode_wal_entry-extend :
    (r more : Bytes) {p : WalEntry × Bytes}
    → decode_wal_entry r ≡ ok p
    → (decode_wal_entry (r ++ more) ≡ ok (p.0, p.1 ++ more)) × (length p.1 < length r)
unfolding decode_wal_entry
decode_wal_entry-extend r more {p} e =
    let (a, ea, ka) = ok_of_bind (read_full 16 r) _ e in
    let (b, eb, kb) = ok_of_bind (read_full _ a.1) _ ka in
    let (c, ec, kc) = ok_of_bind (read_full _ b.1) _ kb in
    let (d, ed, kd) = ok_of_bind (read_full 4 c.1) _ kc in
    let (entry, ee, ke) = ok_of_bind (check_crc a.0 b.0 c.0 d.0) _ kd in
    (
      rw (read_full-extend 16 r more ea) (
          rw (read_full-extend _ a.1 more eb) (
            rw (read_full-extend _ b.1 more ec)
              (rw (read_full-extend 4 c.1 more ed) (rw ee (ground (arith, ke)))))),
      ground (
        arith,
        ke,
        read_full_lengths 16 r ea,
        read_full_lengths _ a.1 eb,
        read_full_lengths _ b.1 ec,
        read_full_lengths 4 c.1 ed,
      ),
    )

-- The record of an entry whose key is shorter than 2 ^ 16 bytes, whose value is shorter than 2 ^ 32
-- and whose timestamp is below 2 ^ 64, is refused when it is cut short at any place.
pub decode_wal_entry_cut :
    (entry : WalEntry) (capacity x : ℕ) (front back : Bytes)
    → Fits entry
    → encode_wal_entry_to entry capacity ≡ some (front ++ (x ∷ back))
    → (e : ReadError) × (decode_wal_entry front ≡ err e)
decode_wal_entry_cut entry capacity x front back f h = go (decode_wal_entry front) refl
  where
    go :
        (res : Result ReadError (WalEntry × Bytes))
        → decode_wal_entry front ≡ res
        → (e : ReadError) × (decode_wal_entry front ≡ err e)
    go (err e) q = (e, q)
    go (ok p) q =
        let whole =
          rw append-nil at (decode_wal_entry-encoded entry f capacity (front ++ (x ∷ back)) [] h) in
        let extended = (decode_wal_entry-extend front (x ∷ back) q).0 in
        absurd (ground (arith, whole, extended, length-append {0} p.1 (x ∷ back)))
