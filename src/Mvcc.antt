-- ===== src/Mvcc.antt =====
-- internal/mvcc/mvcc.go: timestamps and versioned keys. A uint64 is a number below 2 ^ 64.
pub mod Versions
pub mod Clock
mod Runs
use scoria_db.Base.{ℕ, ◌+◌, ◌-◌, ◌%◌, ◌^◌, Ordering, ltb, leb, if◌then◌else◌}
use scoria_db.Base.Bytes.{Bytes}
use scoria_db.Keys.{compare_keys}

-- math.MaxUint64
abbrev pub max_uint64 : ℕ
max_uint64 = 2 ^ 64 - 1

pub record TimestampGenerator : Type 0 where
  pub counter : ℕ

unfoldable pub new_timestamp_generator : TimestampGenerator
new_timestamp_generator = record { counter = 1 }

-- Current, and its alias Next
unfoldable pub current : TimestampGenerator → ℕ
current tg = tg.counter

unfoldable pub increment : TimestampGenerator → TimestampGenerator × ℕ
increment tg = let ts = (tg.counter + 1) % 2 ^ 64 in (record { counter = ts }, ts)

-- One round of the loop of Set that is not disturbed between the load and the compare-and-swap.
unfoldable pub set_counter : ℕ → TimestampGenerator → TimestampGenerator
set_counter val tg = if leb val tg.counter then tg else record { counter = val }

-- On a uint64 the subtraction does not wrap.
unfoldable pub invert_timestamp : ℕ → ℕ
invert_timestamp ts = max_uint64 - ts

unfoldable pub revert_timestamp : ℕ → ℕ
revert_timestamp inverted = max_uint64 - inverted

pub record MvccKey : Type 0 where
  pub key : Bytes
  pub timestamp : ℕ

unfoldable pub new_mvcc_key : Bytes → ℕ → MvccKey
unfolding invert_timestamp
new_mvcc_key key commit_ts = record { key = key; timestamp = invert_timestamp commit_ts }

unfoldable pub commit_ts : MvccKey → ℕ
unfolding revert_timestamp
commit_ts k = revert_timestamp k.timestamp

compare_timestamps : ℕ → ℕ → Ordering
compare_timestamps a b =
    if ltb b a then Ordering.lt else if ltb a b then Ordering.gt else Ordering.eq

-- MVCCKey.Compare
unfoldable pub compare_mvcc : MvccKey → MvccKey → Ordering
unfolding compare_timestamps
compare_mvcc k other = elim (compare_keys k.key other.key) [
  | Ordering.eq ↦ compare_timestamps k.timestamp other.timestamp
  | Ordering.lt ↦ Ordering.lt
  | Ordering.gt ↦ Ordering.gt
]
