-- ===== src/Engine/Vlog/Written.antt =====
-- What Write puts into the value log is read through its pointer, and stays there.
use scoria_db.Base.{
  ℕ, ◌+◌, ◌-◌, ◌*◌, ◌/◌, ◌%◌, ◌^◌, ◌≤◌, ◌<◌, ◌≡◌, refl, ◌∙◌, inl, inr, Bool, true, false, ◌++◌,
  arith, ltb, leb, if◌then◌else◌, lt→ltb, Bool-cases, length, take, drop, replicate, length-append,
  Result, ok, err, choose_then, length-replicate, choose_else,
}
use scoria_db.Base.Bytes.{Bytes}
use native.Mathlib.Nat.{add-mul, mod-lt, mod-add-div'}
use scoria_db.Base.Bytes.{length-take, length-drop}
use scoria_db.Base.Int.{pos, of_unsigned}
use scoria_db.Engine.ValuePointer.{ValuePointer}
use scoria_db.Engine.Vlog.{
  VlogImpl, VlogError, align_to, extend_file, record_of, put_record, extend_mmap, write, read_value,
  max_inline_size, vlog_closed,
}
use scoria_db.Engine.Vlog.Record.{length-record_of}
use scoria_db.Engine.Vlog.Stored.{
  HoldsAt, Holds, IsVlog, HoldsAt-append, HoldsAt-put_record, put_record-HoldsAt, read_value-Holds,
}

align_to-le : (size align : ℕ) → 0 < align → size ≤ align_to size align
unfolding align_to
align_to-le size align h =
    let rest : size % align + size / align * align ≡ size = mod-add-div' size align in
    let less : size % align < align = mod-lt size h in
    let more : (size / align + 1) * align ≡ size / align * align + align =
      add-mul (size / align) 1 align ∙ omega arith in
    ground (arith, rest, less, more)

length-extend_file :
    (size : ℕ) (bytes : Bytes)
    → length (extend_file size bytes) ≡ length bytes + (size - length bytes)
unfolding extend_file
length-extend_file size bytes = omega (
  arith,
  length-append {0} bytes (replicate (size - length bytes) 0),
  length-replicate {A = ℕ} (size - length bytes) 0,
)

-- The mapping that Write writes to: it is long enough, and holds what the log held.
record IsGrown (v grown : VlogImpl) (new_size : ℕ) : Type 0 where
  same_size : grown.data_size ≡ v.data_size
  same_closed : grown.closed ≡ v.closed
  long_enough : new_size ≤ length grown.bytes
  addressable : length grown.bytes < 2 ^ 63
  held :
      (vp : ValuePointer) (value : Bytes)
      → Holds v vp value
      → HoldsAt grown.bytes v.data_size vp value

grow_for : (ℕ → Bool) → ℕ → ℕ → VlogImpl → Result VlogError VlogImpl
grow_for can_grow extend_size new_size v =
    if ltb (length v.bytes) new_size then extend_mmap can_grow extend_size new_size v else ok v

grow_for-IsGrown :
    (can_grow : ℕ → Bool) (extend_size new_size : ℕ) (v : VlogImpl)
    → 0 < extend_size
    → can_grow (align_to new_size extend_size) ≡ true
    → length v.bytes < 2 ^ 63
    → align_to new_size extend_size < 2 ^ 63
    → (grown : VlogImpl) × (grow_for can_grow extend_size new_size v ≡ ok grown)
      × IsGrown v grown new_size
unfolding grow_for extend_mmap extend_file
grow_for-IsGrown can_grow extend_size new_size v p room small grown_small =
    elim (Bool-cases (ltb (length v.bytes) new_size)) [
      | inr enough ↦ (
        v,
        rw enough refl,
        record {
          same_size = refl;
          same_closed = refl;
          long_enough = ground (arith, enough);
          addressable = small;
          held = λ vp value h. h;
        },
      )
      | inl short ↦
          let size = align_to new_size extend_size in
          (
            record v { bytes = extend_file size v.bytes },
            rw (short, room) refl,
            record {
              same_size = refl;
              same_closed = refl;
              long_enough =
                  omega
                    (arith, align_to-le new_size extend_size p, length-extend_file size v.bytes);
              addressable = omega (arith, small, grown_small, length-extend_file size v.bytes);
              held = λ vp value h.
                  HoldsAt-append v.bytes (replicate (size - length v.bytes) 0) v.data_size vp value
                    h;
            },
          )
    ]

length-put_record :
    (bytes : Bytes) (offset : ℕ) (new : Bytes)
    → offset + (8 + length new) ≤ length bytes
    → length (put_record bytes offset new) ≡ length bytes
unfolding put_record
length-put_record bytes offset new le =
    let tail = drop (offset + (8 + length new)) bytes in
    omega (
      arith,
      length-take offset bytes (omega (arith, le)),
      length-drop (offset + (8 + length new)) bytes,
      length-append {0} (take offset bytes) (record_of new ++ tail),
      length-append {0} (record_of new) tail,
      length-record_of new,
    )

-- The pointer that Write returns.
abbrev written_pointer : ℕ → Bytes → ValuePointer
written_pointer offset value = record {
  offset = pos offset;
  size = of_unsigned (2 ^ 31) (length value % 2 ^ 32);
}

of_unsigned-length : (n : ℕ) → n < 2 ^ 31 → of_unsigned (2 ^ 31) (n % 2 ^ 32) ≡ pos n
of_unsigned-length n h =
    let e : n % 2 ^ 32 ≡ n = omega (arith, h) in
    rw e (choose_then (ltb n (2 ^ 31)) (pos n) _ (lt→ltb n (2 ^ 31) h))

-- The log that Write leaves.
abbrev after_write : VlogImpl → VlogImpl → Bytes → VlogImpl
after_write v grown value = record grown {
  bytes = put_record grown.bytes v.data_size value;
  data_size = v.data_size + (8 + length value);
}

write-after_write :
    (can_grow : ℕ → Bool) (extend_size : ℕ) (value : Bytes) (v grown : VlogImpl)
    → max_inline_size < length value
    → v.closed ≡ false
    → grow_for can_grow extend_size (v.data_size + (8 + length value)) v ≡ ok grown
    → write can_grow extend_size value v
      ≡ ok (after_write v grown value, written_pointer v.data_size value)
unfolding write grow_for
write-after_write can_grow extend_size value v grown big opened g =
    choose_else (leb (length value) max_inline_size) (ok (v, _)) _ (ground (arith, big))
    ∙ choose_else v.closed (err vlog_closed) _ opened
    ∙ rw g refl

-- Write of a value longer than 64 and shorter than 2 ^ 31 bytes to an open log with its data within
-- the mapping, whose file can grow, by steps above 0 bytes, and is shorter than 2 ^ 63 bytes before
-- and behind that: it succeeds, the log is well formed, it holds the value under the pointer that
-- is returned, so that Read returns it, and every value that it held it holds still, and Read
-- returns it, under the same pointer.
pub write-Holds :
    (can_grow : ℕ → Bool) (extend_size : ℕ) (value : Bytes) (v : VlogImpl)
    → IsVlog v
    → 0 < extend_size
    → can_grow (align_to (v.data_size + (8 + length value)) extend_size) ≡ true
    → length v.bytes < 2 ^ 63
    → align_to (v.data_size + (8 + length value)) extend_size < 2 ^ 63
    → max_inline_size < length value
    → length value < 2 ^ 31
    → (v' : VlogImpl) × (vp : ValuePointer) × (write can_grow extend_size value v ≡ ok (v', vp))
      × IsVlog v'
      × Holds v' vp value
      × (read_value v' vp ≡ ok value)
      × ((old : ValuePointer) (kept : Bytes)
          → Holds v old kept
          → Holds v' old kept × (read_value v' old ≡ ok kept))
write-Holds can_grow extend_size value v i p room small grown_small big fits =
    let new_size = v.data_size + (8 + length value) in
    let (grown, g, known) =
      grow_for-IsGrown can_grow extend_size new_size v p room small grown_small in
    let v' = after_write v grown value in
    let vp = written_pointer v.data_size value in
    let len : length v'.bytes ≡ length grown.bytes =
      length-put_record grown.bytes v.data_size value known.long_enough in
    let still_small : length v'.bytes < 2 ^ 63 = omega (arith, len, known.addressable) in
    let well : IsVlog v' = record {
      is_open = known.same_closed ∙ i.is_open;
      in_mapping = omega (arith, len, known.long_enough);
    } in
    let new_held : Holds v' vp value = rw (of_unsigned-length (length value) fits) (
      put_record-HoldsAt grown.bytes v.data_size value (omega (arith, known.long_enough))
        (omega (arith, big)) fits) in
    (
      after_write v grown value,
      written_pointer v.data_size value,
      write-after_write can_grow extend_size value v grown big i.is_open g,
      well,
      new_held,
      read_value-Holds v' vp value well new_held still_small,
      λ old kept h.
          let old_held : Holds v' old kept =
            HoldsAt-put_record grown.bytes v.data_size v.data_size value old kept
              (known.held old kept h) (omega arith) in
          (old_held, read_value-Holds v' old kept well old_held still_small),
    )
