-- ===== src/Mvcc/Versions.antt =====
-- Versioned keys: the inversion of timestamps, and the order of the versions of a key.
use scoria_db.Base.{ℕ, ◌≡◌, ◌≤◌, arith, Ordering, ltb, if◌then◌else◌}
use scoria_db.Base.Bytes.{Bytes}
use scoria_db.Keys.{compare_keys}
use scoria_db.Keys.Order.{lex_refl, lex-eq, lex-opposite, lex_trans, compare_keys-eq-lex, opposite}
use scoria_db.Mvcc.{max_uint64, MvccKey, new_mvcc_key, commit_ts, compare_mvcc}

-- The commit timestamp that a key is built from is read back.
pub commit_ts-new_mvcc_key :
    (key : Bytes) (ts : ℕ) → ts ≤ max_uint64 → commit_ts (new_mvcc_key key ts) ≡ ts
unfolding commit_ts new_mvcc_key
commit_ts-new_mvcc_key key ts h = omega arith

same_key : (key : Bytes) → compare_keys key key ≡ Ordering.eq
same_key key = rw compare_keys-eq-lex (lex_refl key)

-- Two versions of one user key are ordered by commit timestamp, the older first.
compare_mvcc-versions :
    (key : Bytes) (s t : ℕ)
    → s ≤ max_uint64
    → t ≤ max_uint64
    → compare_mvcc (new_mvcc_key key s) (new_mvcc_key key t)
      ≡ (if ltb s t then Ordering.lt else if ltb t s then Ordering.gt else Ordering.eq)
unfolding compare_mvcc new_mvcc_key
compare_mvcc-versions key s t hs ht = ground (arith, same_key key)

-- Versions of different user keys are ordered by the user key alone.
pub compare_mvcc-keys :
    (a b : MvccKey) → compare_keys a.key b.key ≡ Ordering.lt → compare_mvcc a b ≡ Ordering.lt
unfolding compare_mvcc
compare_mvcc-keys a b h = ground arith

compare_mvcc-eq : (a b : MvccKey) → compare_mvcc a b ≡ Ordering.eq → a ≡ b
unfolding compare_mvcc
compare_mvcc-eq a b h = ground (arith, compare_keys-eq-lex a.key b.key, lex-eq a.key b.key)

compare_mvcc-opposite : (a b : MvccKey) → compare_mvcc b a ≡ opposite (compare_mvcc a b)
unfolding compare_mvcc
compare_mvcc-opposite a b = ground (
  arith,
  compare_keys-eq-lex a.key b.key,
  compare_keys-eq-lex b.key a.key,
  lex-opposite a.key b.key,
)

compare_mvcc_trans :
    (a b c : MvccKey)
    → compare_mvcc a b ≡ Ordering.lt
    → compare_mvcc b c ≡ Ordering.lt
    → compare_mvcc a c ≡ Ordering.lt
unfolding compare_mvcc
compare_mvcc_trans a b c p q = ground (
  arith,
  compare_keys-eq-lex a.key b.key,
  compare_keys-eq-lex b.key c.key,
  compare_keys-eq-lex a.key c.key,
  lex-eq a.key b.key,
  lex-eq b.key c.key,
  lex_refl a.key,
  lex_trans a.key b.key c.key,
)

-- What it takes for a three-way comparison to be a strict total order.
pub record IsTotalOrder {ℓ} {A : Type ℓ} (compare : A → A → Ordering) : Type ℓ where
  pub equal : (a b : A) → compare a b ≡ Ordering.eq → a ≡ b
  pub antisymmetric : (a b : A) → compare b a ≡ opposite (compare a b)
  pub transitive :
      (a b c : A)
      → compare a b ≡ Ordering.lt
      → compare b c ≡ Ordering.lt
      → compare a c ≡ Ordering.lt

-- MVCCKey.Compare is a strict total order: equal only on equal keys, antisymmetric and transitive.
pub compare_mvcc-IsTotalOrder : IsTotalOrder compare_mvcc
compare_mvcc-IsTotalOrder = record {
  equal = compare_mvcc-eq;
  antisymmetric = compare_mvcc-opposite;
  transitive = compare_mvcc_trans;
}
