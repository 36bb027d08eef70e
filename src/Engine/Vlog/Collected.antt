-- ===== src/Engine/Vlog/Collected.antt =====
-- Garbage collection keeps the live values, each under the pointer that its pointer is translated to.
use scoria_db.Base.{
  subst, ℕ, zero, suc, ◌+◌, ◌^◌, ◌<◌, ◌≡◌, refl, sym, ap, ◌∙◌, inl, inr, false, if◌then◌else◌,
  Bool-cases, List, [], ◌∷◌, ◌++◌, map, append_assoc, arith, length, All, length-append, ok, err,
  choose_else, All-Perm,
}
use scoria_db.Base.Bytes.{Bytes, be_bytes}
use mathlib.Core.List.{Permᴰ}
use scoria_db.Base.Int.{ℤ, pos, negsuc, is_nonpositive}
use scoria_db.Engine.ValuePointer.{ValuePointer}
use scoria_db.Engine.Vlog.{
  VlogImpl, record_of, is_zero_sized, zero_sized, vlog_closed, collect, live_of, gc, header,
}
use scoria_db.Engine.Vlog.Record.{length-record_of, pointer_to}
use scoria_db.Engine.Vlog.Stored.{HoldsAt, Holds, IsVlog, read_direct_locked-HoldsAt}

-- A pointer to a value that the log holds.
abbrev pub IsLive : Bytes → ℕ → ValuePointer → Type 0
IsLive bytes limit vp = (value : Bytes) × HoldsAt bytes limit vp value

-- The value of a pointer in the old file is that of its translation in the new one.
abbrev pub Moved : Bytes → ℕ → Bytes → ValuePointer × ValuePointer → Type 0
Moved bytes limit file p =
    (value : Bytes) → HoldsAt bytes limit p.0 value → HoldsAt file (length file) p.1 value

-- What the loop writes behind `front`.
record IsCollected (bytes : Bytes) (limit : ℕ) (front : Bytes) (vps : List ValuePointer)
    (written : Bytes) (translation : List (ValuePointer × ValuePointer)) : Type 0 where
  pub done : collect bytes (length front) vps ≡ ok (written, translation)
  pub old_pointers : map (λ (p : ValuePointer × ValuePointer). p.0) translation ≡ vps
  pub moved : All (Moved bytes limit (front ++ written)) translation

module _ (bytes : Bytes) (limit : ℕ) (small : length bytes < 2 ^ 63) where
  -- A pointer has one value.
  same_value :
      (vp : ValuePointer) (value other : Bytes)
      → HoldsAt bytes limit vp value
      → HoldsAt bytes limit vp other
      → value ≡ other
  same_value vp value other h k =
      let both =
        sym (read_direct_locked-HoldsAt bytes limit vp value h small)
        ∙ read_direct_locked-HoldsAt bytes limit vp other k small in
      ground (arith, both)

  not_zero :
      (vp : ValuePointer) (value : Bytes) → HoldsAt bytes limit vp value → is_zero_sized vp ≡ false
  unfolding is_zero_sized
  not_zero vp value h = rw h.pointer (ground (arith, h.nonempty))

  -- The record that the loop writes for a pointer.
  moved_here :
      (front value written : Bytes) (vp : ValuePointer) (old_front : Bytes)
      → vp ≡ pointer_to old_front value
      → 0 < length value
      → length value < 2 ^ 31
      → let file = front ++ (record_of value ++ written) in
        HoldsAt file (length file) (record { offset = pos (length front); size = vp.size }) value
  moved_here front value written vp old_front e p q =
      let same : vp.size ≡ pos (length value) = ap (λ (w : ValuePointer). w.size) e in
      record {
        front = front;
        back = written;
        stands = refl;
        pointer = rw same refl;
        inside = omega (
          arith,
          length-append {0} front (record_of value ++ written),
          length-append {0} (record_of value) written,
          length-record_of value,
        );
        nonempty = p;
        fits = q;
      }

  collect-cons :
      (front value : Bytes) (vp : ValuePointer) (vps : List ValuePointer) (written : Bytes)
      (translation : List (ValuePointer × ValuePointer))
      → HoldsAt bytes limit vp value
      → IsCollected bytes limit (front ++ record_of value) vps written translation
      → IsCollected bytes limit front
          (vp ∷ vps)
          (record_of value ++ written)
          ((vp, record { offset = pos (length front); size = vp.size }) ∷ translation)
  unfolding collect
  collect-cons front value vp vps written translation h rest =
      let next : length (front ++ record_of value) ≡ length front + (8 + length value) =
        omega (arith, length-append {0} front (record_of value), length-record_of value) in
      let later : collect bytes (length front + (8 + length value)) vps
          ≡ ok (written, translation) =
        subst (λ n. collect bytes n vps ≡ ok (written, translation)) next rest.done in
      let shape : (front ++ record_of value) ++ written ≡ front ++ (record_of value ++ written) =
        append_assoc front (record_of value) written in
      record {
        done =
            choose_else (is_zero_sized vp) (err zero_sized) _ (not_zero vp value h)
            ∙ rw (read_direct_locked-HoldsAt bytes limit vp value h small, later) refl;
        old_pointers = ap (λ l. vp ∷ l) rest.old_pointers;
        moved = (
          λ other k.
              subst (HoldsAt (front ++ (record_of value ++ written)) _ _)
                (same_value vp value other h k)
                (moved_here front value written vp h.front h.pointer h.nonempty h.fits),
          subst (λ l. All (Moved bytes limit l) translation) shape rest.moved,
        );
      }

  collect-IsCollected :
      (vps : List ValuePointer) (front : Bytes)
      → All (IsLive bytes limit) vps
      → (written : Bytes) × (translation : List (ValuePointer × ValuePointer)) × IsCollected bytes
          limit front vps written translation
  unfolding collect
  collect-IsCollected [] front h = ([], [], record { done = refl; old_pointers = refl; moved = tt })
  collect-IsCollected (vp ∷ vps) front ((value, h), hs) =
      let (written, translation, rest) = collect-IsCollected vps (front ++ record_of value) hs in
      (
        record_of value ++ written,
        (vp, record { offset = pos (length front); size = vp.size }) ∷ translation,
        collect-cons front value vp vps written translation h rest,
      )

-- The pointers of a size above zero, which are those to values in the log.
abbrev pub in_log : List ValuePointer → List ValuePointer
in_log [] = []
in_log (vp ∷ vps) = let rest = in_log vps in if is_nonpositive vp.size then rest else vp ∷ rest

live_of-in_log : (vps : List ValuePointer) → live_of vps ≡ in_log vps
unfolding live_of
live_of-in_log [] = refl
live_of-in_log (vp ∷ vps) = by_size vp.size (live_of-in_log vps)
  where
    by_size :
        (size : ℤ)
        → live_of vps ≡ in_log vps
        → (elim size [
          | pos zero ↦ live_of vps
          | pos (suc n) ↦ vp ∷ live_of vps
          | negsuc n ↦ live_of vps
        ])
          ≡ (if is_nonpositive size then in_log vps else vp ∷ in_log vps)
    by_size (pos zero) e = e
    by_size (pos (suc n)) e = ap (λ l. vp ∷ l) e
    by_size (negsuc n) e = e

-- A pointer of a size above zero is to a value that the log holds.
abbrev pub IsHeldIfStored : Bytes → ℕ → ValuePointer → Type 0
IsHeldIfStored bytes limit vp = is_nonpositive vp.size ≡ false → IsLive bytes limit vp

in_log-All :
    (bytes : Bytes) (limit : ℕ) (vps : List ValuePointer)
    → All (IsHeldIfStored bytes limit) vps
    → All (IsLive bytes limit) (in_log vps)
in_log-All bytes limit [] h = tt
in_log-All bytes limit (vp ∷ vps) (p, h) = elim (Bool-cases (is_nonpositive vp.size)) [
  | inl y ↦ rw y (in_log-All bytes limit vps h)
  | inr n ↦ rw n (p n, in_log-All bytes limit vps h)
]

length-header : length header ≡ 8
unfolding header be_bytes
length-header = refl

-- Garbage collection of an open log of fewer than 2 ^ 63 bytes, of whose live pointers each of a size
-- above zero is to a value that the log holds, and a sort that permutes those: it succeeds, the new log
-- is well formed, the translation has the live pointers of a size above zero and no others, in the
-- order of the sort, and each value that the log held under one of them the new log holds under its
-- translation.
pub gc-Moved :
    (sort_pointers : List ValuePointer → List ValuePointer) (live_pointers : List ValuePointer)
    (v : VlogImpl)
    → IsVlog v
    → length v.bytes < 2 ^ 63
    → All (IsHeldIfStored v.bytes v.data_size) live_pointers
    → Permᴰ (in_log live_pointers) (sort_pointers (in_log live_pointers))
    → (v' : VlogImpl) × (translation : List (ValuePointer × ValuePointer)) × (gc sort_pointers
          live_pointers v
        ≡ ok (v', translation))
      × IsVlog v'
      × (map (λ (p : ValuePointer × ValuePointer). p.0) translation
          ≡ sort_pointers (in_log live_pointers))
      × All (λ p. (value : Bytes) → Holds v p.0 value → Holds v' p.1 value) translation
unfolding gc
gc-Moved sort_pointers live_pointers v i small live permuted =
    let sorted = sort_pointers (in_log live_pointers) in
    let all_live : All (IsLive v.bytes v.data_size) sorted =
      All-Perm (IsLive v.bytes v.data_size) permuted
        (in_log-All v.bytes v.data_size live_pointers live) in
    let (written, translation, c) =
      collect-IsCollected v.bytes v.data_size small sorted header all_live in
    let file = header ++ written in
    let from_eight : collect v.bytes 8 (sort_pointers (live_of live_pointers))
        ≡ ok (written, translation) =
      ap (λ l. collect v.bytes 8 (sort_pointers l)) (live_of-in_log live_pointers)
      ∙ subst (λ n. collect v.bytes n sorted ≡ ok (written, translation)) length-header c.done in
    (
      record v { bytes = file; data_size = length file },
      translation,
      choose_else v.closed (err vlog_closed) _ i.is_open ∙ rw from_eight refl,
      record { is_open = i.is_open; in_mapping = omega arith },
      c.old_pointers,
      c.moved,
    )
