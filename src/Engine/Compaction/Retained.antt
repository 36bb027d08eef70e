-- ===== src/Engine/Compaction/Retained.antt =====
-- The loop of the compaction, against one pass over the versions.
use scoria_db.Base.{
  ℕ, zero, suc, ◌+◌, ◌≤◌, ◌<◌, ◌≡◌, refl, sym, ap, ◌∙◌, inl, inr, Bool, true, false, not, ◌&&◌,
  ◌||◌, Option, none, some, List, [], ◌∷◌, ◌++◌, arith, ltb, leb, ◌==◌, if◌then◌else◌, Bool-cases,
  length,
}
use scoria_db.Base.Bytes.{Bytes}
use scoria_db.Base.Map.{bytes_equal, bytes_equal_iff, bytes_equal_refl}
use scoria_db.Mvcc.{commit_ts}
use scoria_db.Engine.Compaction.{
  Kv, versions_of_key, behind_key, is_kept, write_versions, compact_loop,
}

-- The version is the first of its user key, where `last` is the user key in front of it.
unfoldable pub is_newest : Option Bytes → Kv → Bool
is_newest none kv = true
is_newest (some last) kv = not (bytes_equal kv.key.key last)

-- One pass over the versions, of which the first is the one at the index `i`.
unfoldable one_pass : (ℕ → ℕ) → ℕ → Option Bytes → List Kv → List Kv
unfolding is_newest is_kept
one_pass min_at i last [] = []
one_pass min_at i last (kv ∷ kvs) =
    let rest = one_pass min_at (i + 1) (some kv.key.key) kvs in
    if is_kept (is_newest last kv) (min_at i) kv then kv ∷ rest else rest

one_pass-behind_key :
    (min_at : ℕ → ℕ) (i : ℕ) (k : Bytes) (kvs : List Kv)
    → one_pass min_at i (some k) (behind_key k kvs) ≡ one_pass min_at i none (behind_key k kvs)
unfolding one_pass behind_key is_newest
one_pass-behind_key min_at i k [] = refl
one_pass-behind_key min_at i k (kv ∷ kvs) = elim (Bool-cases (bytes_equal kv.key.key k)) [
  | inl y ↦ rw y (one_pass-behind_key min_at i k kvs)
  | inr n ↦ rw (n, n) refl
]

-- The later versions of the key that is at hand.
one_pass-versions_of_key :
    (min_at : ℕ → ℕ) (i : ℕ) (k : Bytes) (kvs : List Kv)
    → one_pass min_at i (some k) kvs
      ≡ write_versions min_at false i (versions_of_key k kvs)
        ++ one_pass min_at (i + length (versions_of_key k kvs)) (some k) (behind_key k kvs)
unfolding one_pass behind_key versions_of_key write_versions is_newest
one_pass-versions_of_key min_at i k [] = refl
one_pass-versions_of_key min_at i k (kv ∷ kvs) = elim (Bool-cases (bytes_equal kv.key.key k)) [
  | inl y ↦
      let same : kv.key.key ≡ k = (bytes_equal_iff kv.key.key k).0 y in
      let later = versions_of_key k kvs in
      let index : i + 1 + length later ≡ i + length (kv ∷ later) = omega arith in
      let ih =
        ap (λ q. one_pass min_at (i + 1) (some q) kvs) same
        ∙ one_pass-versions_of_key min_at (i + 1) k kvs
        ∙ ap
            (λ n.
              write_versions min_at false (i + 1) later
              ++ one_pass min_at n (some k) (behind_key k kvs))
            index in
      elim (Bool-cases (is_kept false (min_at i) kv)) [
        | inl z ↦ rw (y, z) (ap (λ xs. kv ∷ xs) ih)
        | inr z ↦ rw (y, z) ih
      ]
  | inr n ↦ rw (n, n) (ap (λ j. one_pass min_at j none (kv ∷ kvs)) (omega arith))
]

length-behind_key : (k : Bytes) (kvs : List Kv) → length (behind_key k kvs) ≤ length kvs
unfolding behind_key
length-behind_key k [] = omega arith
length-behind_key k (kv ∷ kvs) = elim (Bool-cases (bytes_equal kv.key.key k)) [
  | inl y ↦ rw y (omega (arith, length-behind_key k kvs))
  | inr n ↦ rw n (omega arith)
]

compact_loop-one_pass :
    (fuel : ℕ) (min_at : ℕ → ℕ) (i : ℕ) (kvs : List Kv)
    → length kvs < fuel
    → compact_loop fuel min_at i kvs ≡ some (one_pass min_at i none kvs)
unfolding compact_loop one_pass versions_of_key behind_key write_versions is_newest
compact_loop-one_pass zero min_at i kvs h = absurd (omega (arith, h))
compact_loop-one_pass (suc fuel) min_at i [] h = refl
compact_loop-one_pass (suc fuel) min_at i (kv ∷ kvs) h =
    let k = kv.key.key in
    let later = versions_of_key k kvs in
    let j = i + length (kv ∷ later) in
    let ih : compact_loop fuel min_at j (behind_key k kvs)
        ≡ some (one_pass min_at j none (behind_key k kvs)) =
      compact_loop-one_pass fuel min_at j (behind_key k kvs)
        (omega (arith, h, length-behind_key k kvs)) in
    let index : i + 1 + length later ≡ j = omega arith in
    let rest : write_versions min_at false (i + 1) later
          ++ one_pass min_at j none (behind_key k kvs)
        ≡ one_pass min_at (i + 1) (some k) kvs =
      ap (λ xs. write_versions min_at false (i + 1) later ++ xs)
        (sym (one_pass-behind_key min_at j k kvs)
          ∙ ap (λ n. one_pass min_at n (some k) (behind_key k kvs)) (sym index))
      ∙ sym (one_pass-versions_of_key min_at (i + 1) k kvs) in
    let front : versions_of_key k (kv ∷ kvs) ≡ kv ∷ later = rw (bytes_equal_refl k) refl in
    let back : behind_key k (kv ∷ kvs) ≡ behind_key k kvs = rw (bytes_equal_refl k) refl in
    elim (Bool-cases (is_kept true (min_at i) kv)) [
      | inl y ↦ rw (front, back, ih, front, y) (ap (λ xs. some (kv ∷ xs)) rest)
      | inr n ↦ rw (front, back, ih, front, n) (ap (λ (xs : List Kv). some xs) rest)
    ]

-- No tombstone, and the newest of its key or no newer than the least active snapshot.
unfoldable pub is_wanted : Bool → ℕ → Kv → Bool
unfolding commit_ts
is_wanted newest cur_min kv =
    not (length kv.value == 0) && (newest || (ltb 0 cur_min && leb (commit_ts kv.key) cur_min))

-- Of each user key the versions that are wanted, in their order.
unfoldable pub retained : (ℕ → ℕ) → ℕ → Option Bytes → List Kv → List Kv
unfolding is_newest is_wanted
retained min_at i last [] = []
retained min_at i last (kv ∷ kvs) =
    let rest = retained min_at (i + 1) (some kv.key.key) kvs in
    if is_wanted (is_newest last kv) (min_at i) kv then kv ∷ rest else rest

is_kept-is_wanted :
    (newest : Bool) (cur_min : ℕ) (kv : Kv)
    → is_kept newest cur_min kv ≡ is_wanted newest cur_min kv
unfolding is_kept is_wanted commit_ts
is_kept-is_wanted newest cur_min kv = ground arith

one_pass-retained :
    (min_at : ℕ → ℕ) (i : ℕ) (last : Option Bytes) (kvs : List Kv)
    → one_pass min_at i last kvs ≡ retained min_at i last kvs
unfolding one_pass retained
one_pass-retained min_at i last [] = refl
one_pass-retained min_at i last (kv ∷ kvs) =
    rw
      (
        is_kept-is_wanted (is_newest last kv) (min_at i) kv,
        one_pass-retained min_at (i + 1) (some kv.key.key) kvs,
      )
      refl

-- With more rounds than there are versions, the loop ends, whatever the least active snapshot is at each
-- read of it; of each user key it has written the first version and those that are no newer than the
-- least active snapshot at their read, but no tombstones.
pub compact_loop-retained :
    (fuel : ℕ) (min_at : ℕ → ℕ) (kvs : List Kv)
    → length kvs < fuel
    → compact_loop fuel min_at 0 kvs ≡ some (retained min_at 0 none kvs)
compact_loop-retained fuel min_at kvs h =
    compact_loop-one_pass fuel min_at 0 kvs h
    ∙ ap (λ (xs : List Kv). some xs) (one_pass-retained min_at 0 none kvs)
