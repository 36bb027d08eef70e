-- ===== src/Base/Bytes.antt =====
-- Byte slices as lists of numbers, the fixed-width integers of encoding/binary, and the reads of
-- the decoders, which take a prefix off what is left of the input.
use Prim.Native.Nat.{◌-◌, ℕ, zero, suc, ◌+◌, ◌*◌, ◌/◌, ◌%◌, ◌^◌, ◌≤◌, ◌<◌}
use mathlib.Core.Path.{◌≡◌, refl, sym, ap, ◌∙◌, subst}
use mathlib.Core.List.{List, [], ◌∷◌, ◌++◌, reverse, reverse-reverse, reverse-cons}
use mathlib.Core.Option.{Option, none, some}
use native.Mathlib.Omega.{arith}
use native.Mathlib.Nat.{pow-suc}
use scoria_db.Base.Lists.{
  length, length-append, take, drop, All, All-append, All-append_left, All-append_right,
}
use scoria_db.Base.Results.{Result, ok, err}
use scoria_db.Base.Tests.{leb, if◌then◌else◌}

abbrev pub Bytes : Type 0
Bytes = List ℕ

abbrev pub IsByte : ℕ → Type 0
IsByte b = b < 256

-- The bytes of `v`, the least significant first (binary.LittleEndian.PutUint16, 32 and 64).
unfoldable pub le_bytes : ℕ → ℕ → Bytes
le_bytes zero v = []
le_bytes (suc w) v = (v % 256) ∷ le_bytes w (v / 256)

unfoldable pub le_value : Bytes → ℕ
le_value [] = 0
le_value (b ∷ bs) = b + 256 * le_value bs

-- binary.BigEndian.PutUint16, 32 and 64
unfoldable pub be_bytes : ℕ → ℕ → Bytes
unfolding le_bytes
be_bytes w v = reverse (le_bytes w v)

unfoldable pub be_value : Bytes → ℕ
unfolding le_value
be_value bs = le_value (reverse bs)

pub length-le_bytes : (w v : ℕ) → length (le_bytes w v) ≡ w
unfolding le_bytes
length-le_bytes zero v = refl
length-le_bytes (suc w) v = ap suc (length-le_bytes w (v / 256))

div-lt : (v w : ℕ) → v < 256 ^ suc w → v / 256 < 256 ^ w
div-lt v w h = omega (arith, pow-suc 256 w)

pub le_value-le_bytes : (w v : ℕ) → v < 256 ^ w → le_value (le_bytes w v) ≡ v
unfolding le_bytes le_value
le_value-le_bytes zero v h = omega arith
le_value-le_bytes (suc w) v h = omega (arith, le_value-le_bytes w (v / 256) (div-lt v w h))

length-reverse : (bs : Bytes) → length (reverse bs) ≡ length bs
length-reverse [] = refl
length-reverse (b ∷ bs) = rw (reverse-cons, length-append) (omega (arith, length-reverse bs))

pub length-be_bytes : (w v : ℕ) → length (be_bytes w v) ≡ w
unfolding be_bytes
length-be_bytes w v = length-reverse (le_bytes w v) ∙ length-le_bytes w v

pub be_value-be_bytes : (w v : ℕ) → v < 256 ^ w → be_value (be_bytes w v) ≡ v
unfolding be_bytes be_value
be_value-be_bytes w v h = rw reverse-reverse (le_value-le_bytes w v h)

-- `l[:n]` and `l[n:]`, or `none` if the list is shorter.
unfoldable pub split {ℓ} : {A : Type ℓ} → ℕ → List A → Option (List A × List A)
split n l = if leb n (length l) then some (take n l, drop n l) else none

module _ {ℓ} {A : Type ℓ} where
  take-append : (xs ys : List A) → take (length xs) (xs ++ ys) ≡ xs
  take-append [] ys = refl
  take-append (x ∷ xs) ys = ap (λ t. x ∷ t) (take-append xs ys)

  drop-append : (xs ys : List A) → drop (length xs) (xs ++ ys) ≡ ys
  drop-append [] ys = refl
  drop-append (x ∷ xs) ys = drop-append xs ys

  pub length-take : (n : ℕ) (xs : List A) → n ≤ length xs → length (take n xs) ≡ n
  length-take zero xs h = refl
  length-take (suc n) [] h = elim h [ ]
  length-take (suc n) (x ∷ xs) h = ap suc (length-take n xs (omega arith))

  pub take-append-drop : (n : ℕ) (xs : List A) → take n xs ++ drop n xs ≡ xs
  take-append-drop zero xs = refl
  take-append-drop (suc n) [] = refl
  take-append-drop (suc n) (x ∷ xs) = ap (λ t. x ∷ t) (take-append-drop n xs)

  pub length-drop : (n : ℕ) (xs : List A) → length (drop n xs) + n ≡ length xs + (n - length xs)
  length-drop zero xs = omega arith
  length-drop (suc n) [] = omega arith
  length-drop (suc n) (x ∷ xs) = omega (arith, length-drop n xs)

  pub take-append_of_length : (n : ℕ) (xs ys : List A) → length xs ≡ n → take n (xs ++ ys) ≡ xs
  take-append_of_length n xs ys e = rw (← e) (take-append xs ys)

  pub drop-append_of_length : (n : ℕ) (xs ys : List A) → length xs ≡ n → drop n (xs ++ ys) ≡ ys
  drop-append_of_length n xs ys e = rw (← e) (drop-append xs ys)

  drop-append_beyond : (k : ℕ) (xs ys : List A) → drop (length xs + k) (xs ++ ys) ≡ drop k ys
  drop-append_beyond k [] ys = ground arith
  drop-append_beyond k (x ∷ xs) ys =
      let e : suc (length xs) + k ≡ suc (length xs + k) = omega arith in
      rw e (drop-append_beyond k xs ys)

  take-append_beyond : (k : ℕ) (xs ys : List A) → take (length xs + k) (xs ++ ys) ≡ xs ++ take k ys
  take-append_beyond k [] ys = ground arith
  take-append_beyond k (x ∷ xs) ys =
      let e : suc (length xs) + k ≡ suc (length xs + k) = omega arith in
      rw e (ap (λ t. x ∷ t) (take-append_beyond k xs ys))

  pub take-append_past :
      (n k : ℕ) (xs ys : List A) → length xs ≡ n → take (n + k) (xs ++ ys) ≡ xs ++ take k ys
  take-append_past n k xs ys e = rw (← e) (take-append_beyond k xs ys)

  pub drop-append_past :
      (n k : ℕ) (xs ys : List A) → length xs ≡ n → drop (n + k) (xs ++ ys) ≡ drop k ys
  drop-append_past n k xs ys e = rw (← e) (drop-append_beyond k xs ys)

  -- A prefix of the length asked for is what is taken.
  pub split-append : (n : ℕ) (xs ys : List A) → length xs ≡ n → split n (xs ++ ys) ≡ some (xs, ys)
  unfolding split
  split-append n xs ys e = ground (
    arith,
    length-append xs ys,
    ap (λ k. take k (xs ++ ys)) e,
    ap (λ k. drop k (xs ++ ys)) e,
    take-append xs ys,
    drop-append xs ys,
  )

  -- What is taken and what is left make up the list.
  pub split-eq-some :
      (n : ℕ) (l xs ys : List A) → split n l ≡ some (xs, ys) → (xs ++ ys ≡ l) × (length xs ≡ n)
  unfolding split
  split-eq-some n l xs ys e =
      (ground (arith, take-append-drop n l), ground (arith, length-take n l))

  -- A list that is too short is refused.
  pub split-short : (n : ℕ) (l : List A) → length l < n → split n l ≡ none
  unfolding split
  split-short n l h = ground arith

-- A read of an exact number of bytes, with the error of the decoder if there are fewer.
unfoldable pub read {ℓ} : {E : Type ℓ} → ℕ → E → Bytes → Result E (Bytes × Bytes)
read n e l = elim (split n l) [ none ↦ err e | some p ↦ ok p ]

module _ {ℓ} {E : Type ℓ} where
  pub read-append :
      (n : ℕ) (e : E) (xs ys : Bytes) → length xs ≡ n → read n e (xs ++ ys) ≡ ok (xs, ys)
  unfolding read
  read-append n e xs ys h = rw (split-append n xs ys h, read)

  pub read-eq-ok :
      (n : ℕ) (e : E) (l xs ys : Bytes)
      → read n e l ≡ ok (xs, ys)
      → (xs ++ ys ≡ l) × (length xs ≡ n)
  unfolding read
  read-eq-ok n e l xs ys h = ground (arith, split-eq-some n l xs ys)

  pub read-short : (n : ℕ) (e : E) (l : Bytes) → length l < n → read n e l ≡ err e
  unfolding read
  read-short n e l h = rw (split-short n l h, read)

  pub read_be :
      (w v : ℕ) (e : E) (ys : Bytes) → read w e (be_bytes w v ++ ys) ≡ ok (be_bytes w v, ys)
  read_be w v e ys = read-append w e (be_bytes w v) ys (length-be_bytes w v)

  pub read_le :
      (w v : ℕ) (e : E) (ys : Bytes) → read w e (le_bytes w v ++ ys) ≡ ok (le_bytes w v, ys)
  read_le w v e ys = read-append w e (le_bytes w v) ys (length-le_bytes w v)

-- A length converted to uint16 or uint32 and written is read back, if it fits.
pub be_value-uint16 : (n : ℕ) → n < 2 ^ 16 → be_value (be_bytes 2 (n % 2 ^ 16)) ≡ n
be_value-uint16 n h =
    let e : n % 2 ^ 16 ≡ n = omega arith in rw e (be_value-be_bytes 2 n (omega arith))

pub be_value-uint32 : (n : ℕ) → n < 2 ^ 32 → be_value (be_bytes 4 (n % 2 ^ 32)) ≡ n
be_value-uint32 n h =
    let e : n % 2 ^ 32 ≡ n = omega arith in rw e (be_value-be_bytes 4 n (omega arith))

pub le_value-uint32 : (n : ℕ) → n < 2 ^ 32 → le_value (le_bytes 4 (n % 2 ^ 32)) ≡ n
le_value-uint32 n h =
    let e : n % 2 ^ 32 ≡ n = omega arith in rw e (le_value-le_bytes 4 n (omega arith))

pub be_value-one : (b : ℕ) → be_value (b ∷ []) ≡ b
unfolding be_value
be_value-one b = omega arith

AllByte-reverse : (bs : Bytes) → All IsByte bs → All IsByte (reverse bs)
AllByte-reverse [] h = tt
AllByte-reverse (b ∷ bs) (p, h) =
    rw reverse-cons (All-append IsByte (reverse bs) (b ∷ []) (AllByte-reverse bs h) (p, tt))

le_value-lt : (bs : Bytes) → All IsByte bs → le_value bs < 256 ^ length bs
unfolding le_value
le_value-lt [] h = omega arith
le_value-lt (b ∷ bs) (p, h) = omega (arith, le_value-lt bs h, pow-suc 256 (length bs))

-- `w` bytes hold a number below 256 ^ w.
pub be_value-lt : (w : ℕ) (bs : Bytes) → length bs ≡ w → All IsByte bs → be_value bs < 256 ^ w
unfolding be_value
be_value-lt w bs e h =
    subst (λ k. le_value (reverse bs) < 256 ^ k) (length-reverse bs ∙ e)
      (le_value-lt (reverse bs) (AllByte-reverse bs h))

module _ {ℓ} {E : Type ℓ} where
  -- A read of bytes: what is taken and what is left are bytes.
  pub read-IsByte :
      (n : ℕ) (e : E) (l : Bytes) {p : Bytes × Bytes}
      → read n e l ≡ ok p
      → All IsByte l
      → (length p.0 ≡ n) × All IsByte p.0 × All IsByte p.1
  read-IsByte n e l {p} h bytes =
      let (whole, len) = read-eq-ok n e l p.0 p.1 h in
      let parts : All IsByte (p.0 ++ p.1) = subst (All IsByte) (sym whole) bytes in
      (len, All-append_left IsByte p.0 p.1 parts, All-append_right IsByte p.0 p.1 parts)

pub take-IsByte : (n : ℕ) (bs : Bytes) → All IsByte bs → All IsByte (take n bs)
take-IsByte n bs h = All-append_left IsByte (take n bs) (drop n bs) (rw (take-append-drop n bs) h)

pub drop-IsByte : (n : ℕ) (bs : Bytes) → All IsByte bs → All IsByte (drop n bs)
drop-IsByte n bs h = All-append_right IsByte (take n bs) (drop n bs) (rw (take-append-drop n bs) h)
