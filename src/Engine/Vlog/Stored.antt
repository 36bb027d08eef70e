-- ===== src/Engine/Vlog/Stored.antt =====
-- What the value log holds, and what leaves it in place.
use scoria_db.Base.{
  subst, ℕ, ◌+◌, ◌-◌, ◌^◌, ◌≤◌, ◌<◌, ◌≡◌, refl, sym, ap, ◌∙◌, false, ◌++◌, append_assoc, arith,
  length, take, drop, ok, err, choose_else,
}
use scoria_db.Base.Bytes.{Bytes}
use scoria_db.Base.Bytes.{take-append_past, length-take}
use scoria_db.Base.Int.{pos}
use scoria_db.Engine.ValuePointer.{ValuePointer}
use scoria_db.Engine.Vlog.{
  VlogImpl, record_of, put_record, read_direct_locked, read_value, is_zero_sized, zero_sized,
  vlog_closed,
}
use scoria_db.Engine.Vlog.Record.{
  length-record_of, pointer_to, length-file, read_direct_locked-record,
}

-- The record of a value stands within the first `limit` bytes, under its pointer.
pub record HoldsAt (bytes : Bytes) (limit : ℕ) (vp : ValuePointer) (value : Bytes) : Type 0 where
  pub front : Bytes
  pub back : Bytes
  pub stands : bytes ≡ front ++ (record_of value ++ back)
  pub pointer : vp ≡ pointer_to front value
  pub inside : length front + (8 + length value) ≤ limit
  pub nonempty : 0 < length value
  pub fits : length value < 2 ^ 31

pub read_direct_locked-HoldsAt :
    (bytes : Bytes) (limit : ℕ) (vp : ValuePointer) (value : Bytes)
    → HoldsAt bytes limit vp value
    → length bytes < 2 ^ 63
    → read_direct_locked bytes vp ≡ ok value
read_direct_locked-HoldsAt bytes limit vp value h small =
    let len = length-file h.front value h.back in
    subst (λ l. read_direct_locked l vp ≡ ok value) (sym h.stands)
      (rw h.pointer (
        read_direct_locked-record h.front value h.back h.fits
          (omega (arith, small, len, ap (λ l. length l) h.stands))))

-- More bytes behind the log change nothing.
pub HoldsAt-append :
    (bytes more : Bytes) (limit : ℕ) (vp : ValuePointer) (value : Bytes)
    → HoldsAt bytes limit vp value
    → HoldsAt (bytes ++ more) limit vp value
HoldsAt-append bytes more limit vp value h = record {
  front = h.front;
  back = h.back ++ more;
  stands = rw h.stands (
      append_assoc h.front (record_of value ++ h.back) more
      ∙ ap (λ l. h.front ++ l) (append_assoc (record_of value) h.back more));
  pointer = h.pointer;
  inside = h.inside;
  nonempty = h.nonempty;
  fits = h.fits;
}

-- A write at the limit or behind it changes nothing.
pub HoldsAt-put_record :
    (bytes : Bytes) (limit offset : ℕ) (new : Bytes) (vp : ValuePointer) (value : Bytes)
    → HoldsAt bytes limit vp value
    → limit ≤ offset
    → HoldsAt (put_record bytes offset new) (offset + (8 + length new)) vp value
unfolding put_record
HoldsAt-put_record bytes limit offset new vp value h le =
    let before = length h.front in
    let own = 8 + length value in
    let tail = record_of new ++ drop (offset + (8 + length new)) bytes in
    let more = offset - (before + own) in
    let split : offset ≡ before + (own + more) = omega (arith, h.inside, le) in
    let cut : take offset bytes ≡ h.front ++ (record_of value ++ take more h.back) =
      ap (λ l. take offset l) h.stands
      ∙ ap (λ n. take n (h.front ++ (record_of value ++ h.back))) split
      ∙ take-append_past before (own + more) h.front (record_of value ++ h.back) refl
      ∙ ap (λ l. h.front ++ l)
          (take-append_past own more (record_of value) h.back (length-record_of value)) in
    record {
      front = h.front;
      back = take more h.back ++ tail;
      stands =
          ap (λ l. l ++ tail) cut
          ∙ append_assoc h.front (record_of value ++ take more h.back) tail
          ∙ ap (λ l. h.front ++ l) (append_assoc (record_of value) (take more h.back) tail);
      pointer = h.pointer;
      inside = omega (arith, h.inside, le);
      nonempty = h.nonempty;
      fits = h.fits;
    }

-- The record that is written.
pub put_record-HoldsAt :
    (bytes : Bytes) (offset : ℕ) (new : Bytes)
    → offset ≤ length bytes
    → 0 < length new
    → length new < 2 ^ 31
    → HoldsAt
        (put_record bytes offset new)
        (offset + (8 + length new))
        (record { offset = pos offset; size = pos (length new) })
        new
unfolding put_record
put_record-HoldsAt bytes offset new le p q =
    let len = length-take offset bytes le in
    record {
      front = take offset bytes;
      back = drop (offset + (8 + length new)) bytes;
      stands = refl;
      pointer = rw len refl;
      inside = omega (arith, len);
      nonempty = p;
      fits = q;
    }

-- A log whose records stand within its mapping.
pub record IsVlog (v : VlogImpl) : Type 0 where
  pub is_open : v.closed ≡ false
  pub in_mapping : v.data_size ≤ length v.bytes

-- A value that the log holds.
abbrev pub Holds : VlogImpl → ValuePointer → Bytes → Type 0
Holds v vp value = HoldsAt v.bytes v.data_size vp value

-- A value that the log holds is read.
pub read_value-Holds :
    (v : VlogImpl) (vp : ValuePointer) (value : Bytes)
    → IsVlog v
    → Holds v vp value
    → length v.bytes < 2 ^ 63
    → read_value v vp ≡ ok value
unfolding read_value is_zero_sized
read_value-Holds v vp value i h small =
    let sized : is_zero_sized vp ≡ false = rw h.pointer (ground (arith, h.nonempty)) in
    choose_else (is_zero_sized vp) (err zero_sized) _ sized
    ∙ choose_else v.closed (err vlog_closed) _ i.is_open
    ∙ read_direct_locked-HoldsAt v.bytes v.data_size vp value h small
