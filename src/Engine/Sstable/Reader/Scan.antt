-- ===== src/Engine/Sstable/Reader/Scan.antt =====
-- The loop of Lookup over a block: it ends on every block, and on a block that Finish formed it
-- goes over the entries.
use scoria_db.Base.{
  subst, ℕ, zero, suc, ◌<◌, ◌≡◌, refl, ◌∙◌, ◌≢◌, inl, inr, List, [], ◌∷◌, ◌++◌, append-nil, arith,
  Ordering, length, All, ok, err, Result-cases,
}
use scoria_db.Base.Bytes.{Bytes, split, read}
use scoria_db.Keys.{compare_keys}
use scoria_db.Mvcc.{MvccKey}
use scoria_db.Engine.Sstable.Encoding.{EncodingError, decode_mvcc_key, encode_mvcc_key, corrupted}
use scoria_db.Engine.Sstable.Encoding.RoundTrip.{decode_mvcc_key-encode_mvcc_key}
use scoria_db.Engine.Sstable.Entry.{RawEntry, encode_raw, read_entry}
use scoria_db.Engine.Sstable.Entry.RoundTrip.{
  stored, IsWritable, read_entry-encode_raw, read_entry-lt,
}
use scoria_db.Engine.Sstable.Entry.Sequence.{encode_all}
use scoria_db.Engine.Sstable.Reader.{Best, note_version, scan_block, stuck}

-- The loop on entries in place of their bytes.
unfoldable pub scan_entries : Bytes → ℕ → List RawEntry → Best → Best
scan_entries user_key snapshot_ts [] best = best
scan_entries user_key snapshot_ts (e ∷ es) best = elim (compare_keys e.key.key user_key) [
  | Ordering.lt ↦ scan_entries user_key snapshot_ts es best
  | Ordering.gt ↦ best
  | Ordering.eq ↦
      scan_entries user_key snapshot_ts es (note_version snapshot_ts e.key (stored e) best)
]

pub decode_mvcc_key-writable :
    (e : RawEntry) → IsWritable e → decode_mvcc_key (encode_mvcc_key e.key) ≡ ok e.key
decode_mvcc_key-writable e h =
    subst (λ l. decode_mvcc_key l ≡ ok e.key) (append-nil (encode_mvcc_key e.key))
      (decode_mvcc_key-encode_mvcc_key e.key [] h.key_fits h.timestamp_fits)

module _ (user_key : Bytes) (snapshot_ts : ℕ) where
  -- A round on an entry that is read and whose key is decoded.
  scan_block-round :
      (fuel : ℕ) (rest key value left : Bytes) (k : MvccKey) (best : Best)
      → read_entry rest ≡ ok (key, value, left)
      → decode_mvcc_key key ≡ ok k
      → scan_block (suc fuel) user_key snapshot_ts rest best ≡ (elim (compare_keys k.key user_key) [
        | Ordering.lt ↦ scan_block fuel user_key snapshot_ts left best
        | Ordering.gt ↦ ok best
        | Ordering.eq ↦
            scan_block fuel user_key snapshot_ts left (note_version snapshot_ts k value best)
      ])
  unfolding scan_block
  scan_block-round fuel rest key value left k best e f = rw (e, f, scan_block) refl

  scan_block-end :
      (fuel : ℕ) (best : Best) → scan_block (suc fuel) user_key snapshot_ts [] best ≡ ok best
  unfolding scan_block read_entry read split
  scan_block-end fuel best = refl

  -- On the entries that Finish wrote the loop does what `scan_entries` does, on fuel for each.
  pub scan_block-encode_all :
      (es : List RawEntry) (fuel : ℕ) (best : Best)
      → All IsWritable es
      → length es < fuel
      → scan_block fuel user_key snapshot_ts (encode_all es) best
        ≡ ok (scan_entries user_key snapshot_ts es best)
  unfolding encode_all scan_entries
  scan_block-encode_all es zero best h f = absurd (omega (arith, f))
  scan_block-encode_all [] (suc fuel) best h f = scan_block-end fuel best
  scan_block-encode_all (e ∷ es) (suc fuel) best (w, ws) f =
      scan_block-round fuel (encode_raw e ++ encode_all es) (encode_mvcc_key e.key) (stored e)
        (encode_all es) e.key best (read_entry-encode_raw e (encode_all es) w)
        (decode_mvcc_key-writable e w)
      ∙ ground (
        arith,
        scan_block-encode_all es fuel best ws (omega (arith, f)),
        scan_block-encode_all es fuel (note_version snapshot_ts e.key (stored e) best) ws
            (omega (arith, f)),
      )

  -- A bound of one round for each byte and one more is enough for every block.
  pub scan_block-ends :
      (fuel : ℕ) (rest : Bytes) (best : Best)
      → length rest < fuel
      → scan_block fuel user_key snapshot_ts rest best ≢ err stuck
  unfolding scan_block
  scan_block-ends zero rest best h = absurd (omega (arith, h))
  scan_block-ends (suc fuel) rest best h = elim (Result-cases (read_entry rest)) [
    | inr (e, q) ↦ ground (arith, q)
    | inl (p, q) ↦
        let less : length p.2 < fuel = omega (arith, h, read_entry-lt rest p q) in
        elim (Result-cases (decode_mvcc_key p.0)) [
          | inr (corrupted, d) ↦ ground (arith, q, d, scan_block-ends fuel p.2 best less)
          | inr (EncodingError.panic, d) ↦ ground (arith, q, d)
          | inl (k, d) ↦ ground (
            arith,
            q,
            d,
            scan_block-ends fuel p.2 best less,
            scan_block-ends fuel p.2 (note_version snapshot_ts k p.1 best) less,
          )
        ]
  ]
