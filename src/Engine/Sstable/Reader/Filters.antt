-- ===== src/Engine/Sstable/Reader/Filters.antt =====
-- The filters in front of a lookup deny no key of the table.
use scoria_db.Base.{
  subst, ℕ, ◌≡◌, refl, sym, ◌∙◌, ◌≢◌, inl, inr, Bool, true, false, none, some, List, arith,
  Bool-cases, All, ok, All-map,
}
use scoria_db.Base.Bytes.{Bytes}
use scoria_db.Keys.Order.{lex-eq, compare_keys-eq-lex}
use scoria_db.Mvcc.{MvccKey, commit_ts}
use scoria_db.Engine.Sstable.Bloom.{may_contain}
use scoria_db.Engine.Sstable.Entry.{RawEntry}
use scoria_db.Engine.Sstable.Writer.Blocks.{concat}
use scoria_db.Engine.Sstable.Reader.{Reader, lookup, below_range, above_range}
use scoria_db.Engine.Sstable.Reader.Newest.{newest-none}
use scoria_db.Engine.Sstable.Reader.Kept.{value_at, no_match}
use scoria_db.Engine.Sstable.Reader.Lookups.{Reads, lookup_block-value_at}

-- A reader whose lower bound and whose Bloom filter admit the keys of the entries.
pub record Admits (r : Reader) (es : List RawEntry) : Type 0 where
  pub is_open : r.closed ≡ false
  pub low : All (λ e. below_range e.key.key r.min_key ≡ false) es
  pub answers : (key : Bytes) → (b : Bool) × (may_contain r.bloom_filter key ≡ some b)
  pub found : All (λ e. may_contain r.bloom_filter e.key.key ≡ some true) es

-- Where a test that all the keys pass refuses a key, the key has no version.
value_at-refused :
    {A : Type 0} (test : Bytes → A) (pass : A) (user_key : Bytes) (snapshot_ts : ℕ)
    (es : List RawEntry)
    → All (λ e. test e.key.key ≡ pass) es
    → test user_key ≢ pass
    → value_at user_key snapshot_ts es ≡ none
unfolding value_at
value_at-refused test pass user_key snapshot_ts es h n =
    let missing = newest-none user_key snapshot_ts es (
      All-map
        (λ e q. no_match user_key snapshot_ts e λ same.
          let key : e.key.key ≡ user_key =
            lex-eq e.key.key user_key (sym (compare_keys-eq-lex e.key.key user_key) ∙ same) in
          n (subst (λ k. test k ≡ pass) key q))
        es h) in
    rw (missing, value_at) refl

-- Lookup finds the value of the newest version that the snapshot of the key sees, for a key that the
-- upper bound of the reader admits.
pub lookup-value_at :
    (r : Reader) (groups : List (List RawEntry))
    → Reads r groups
    → Admits r (concat groups)
    → (key : MvccKey) → above_range key.key r.max_key ≡ false
    → lookup r key ≡ ok (value_at key.key (commit_ts key) (concat groups))
unfolding lookup
lookup-value_at r groups h a key high = elim (Bool-cases (below_range key.key r.min_key)) [
  | inl below ↦
      let nothing =
        value_at-refused (λ k. below_range k r.min_key) false key.key (commit_ts key)
          (concat groups) a.low (λ q. ground (arith, below, q)) in
      rw (a.is_open, below, nothing) refl
  | inr above ↦
      let (answer, e) = a.answers key.key in
      elim (Bool-cases answer) [
        | inr fails ↦
            let denied : may_contain r.bloom_filter key.key ≡ some false = rw (e, fails) refl in
            let nothing =
              value_at-refused (λ k. may_contain r.bloom_filter k) (some true) key.key
                (commit_ts key) (concat groups) a.found (λ q. ground (arith, denied, q)) in
            rw (a.is_open, above, high, denied, nothing) refl
        | inl holds ↦
            let admitted : may_contain r.bloom_filter key.key ≡ some true = rw (e, holds) refl in
            rw (a.is_open, above, high, admitted)
              (lookup_block-value_at r groups h key.key (commit_ts key))
      ]
]
