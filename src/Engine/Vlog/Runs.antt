-- ===== src/Engine/Vlog/Runs.antt =====
-- A value of 65 bytes that makes the file grow, and a collection of two pointers, one of size zero.
use scoria_db.Engine.Wal.Crc.{checksum}
use scoria_db.Base.Slices.{int_above, slice}
use scoria_db.Base.{
  ℕ, ◌^◌, ◌<◌, ◌≡◌, refl, Bool, true, false, List, [], ◌∷◌, ◌++◌, map, arith, length, replicate,
  All, ok, err,
}
use scoria_db.Base.Bytes.{Bytes, be_bytes, be_value}
use mathlib.Core.List.{Permᴰ}
use scoria_db.Base.Int.{pos}
use scoria_db.Engine.ValuePointer.{ValuePointer}
use scoria_db.Engine.Vlog.{VlogImpl, align_to, write, gc, record_of, open_vlog, read_value}
use scoria_db.Engine.Vlog.Stored.{Holds, IsVlog}
use scoria_db.Engine.Vlog.Written.{write-Holds}
use scoria_db.Engine.Vlog.Collected.{gc-Moved, in_log}

abbrev fresh : VlogImpl
fresh = record { bytes = replicate 16 0; data_size = 8; closed = false }

fresh-IsVlog : IsVlog fresh
fresh-IsVlog = record { is_open = refl; in_mapping = omega arith }

abbrev any_size : ℕ → Bool
any_size size = true

abbrev long_value : Bytes
long_value = replicate 65 7

write-Holds_example :
    (v' : VlogImpl) × (vp : ValuePointer) × (write any_size 32 long_value fresh ≡ ok (v', vp))
    × IsVlog v'
    × Holds v' vp long_value
    × (read_value v' vp ≡ ok long_value)
    × ((old : ValuePointer) (kept : Bytes)
        → Holds fresh old kept
        → Holds v' old kept × (read_value v' old ≡ ok kept))
unfolding align_to
write-Holds_example =
    write-Holds any_size 32 long_value fresh fresh-IsVlog (omega arith) refl (omega arith)
      (omega arith) (omega arith) (omega arith)

-- A log with the value 1, 2 behind eight bytes, and a byte of no use behind it.
abbrev filled : VlogImpl
filled = record {
  bytes = replicate 8 0 ++ (record_of (1 ∷ 2 ∷ []) ++ (9 ∷ []));
  data_size = 19;
  closed = false;
}

abbrev live : ValuePointer
live = record { offset = pos 8; size = pos 2 }

abbrev inline : ValuePointer
inline = record { offset = pos 0; size = pos 0 }

abbrev as_they_are : List ValuePointer → List ValuePointer
as_they_are vps = vps

live-Holds : Holds filled live (1 ∷ 2 ∷ [])
live-Holds = record {
  front = replicate 8 0;
  back = 9 ∷ [];
  stands = refl;
  pointer = refl;
  inside = omega arith;
  nonempty = omega arith;
  fits = omega arith;
}

filled-IsVlog : IsVlog filled
unfolding record_of be_bytes
filled-IsVlog = record { is_open = refl; in_mapping = omega arith }

filled_small : length filled.bytes < 2 ^ 63
unfolding record_of be_bytes
filled_small = omega arith

kept_order : Permᴰ (in_log (inline ∷ live ∷ [])) (as_they_are (in_log (inline ∷ live ∷ [])))
kept_order = Permᴰ.cons refl Permᴰ.nil

gc-Moved_example :
    (v' : VlogImpl) × (translation : List (ValuePointer × ValuePointer)) × (gc as_they_are
        (inline ∷ live ∷ [])
        filled
      ≡ ok (v', translation))
    × IsVlog v'
    × (map (λ (p : ValuePointer × ValuePointer). p.0) translation ≡ live ∷ [])
    × All (λ p. (value : Bytes) → Holds filled p.0 value → Holds v' p.1 value) translation
gc-Moved_example =
    gc-Moved as_they_are (inline ∷ live ∷ []) filled filled-IsVlog filled_small
      ((λ e. ground (arith, e)), ((λ e. (1 ∷ 2 ∷ [], live-Holds)), tt)) kept_order

-- What Write puts in is read.
written_and_read :
    (elim (write any_size 32 long_value fresh) [ ok (v, vp) ↦ read_value v vp | err e ↦ err e ])
    ≡ ok long_value
unfolding write read_value int_above be_bytes slice be_value checksum
written_and_read = refl

-- An opened log counts its padding as data: 8 bytes are in use before, 32 after.
reopened :
    (elim (open_vlog any_size 32 []) [
      | ok v ↦ (elim (open_vlog any_size 32 v.bytes) [ ok w ↦ w.data_size | err e ↦ 0 ])
      | err e ↦ 0
    ])
    ≡ 32
unfolding open_vlog be_bytes be_value
reopened = refl
