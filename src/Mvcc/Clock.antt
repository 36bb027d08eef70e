-- ===== src/Mvcc/Clock.antt =====
-- The timestamp generator under threads that interleave. Increment is one atomic step; Set is a
-- loop of a load and a compare-and-swap, between which other threads may take steps.
use scoria_db.Base.{
  Option, none, some, List, [], ◌∷◌, ◌-◌, ◌%◌, ℕ, ◌≡◌, ◌≤◌, ◌<◌, ◌+◌, ◌^◌, arith, leb, ◌==◌,
  if◌then◌else◌, Bool, true, false,
}
use scoria_db.Mvcc.{TimestampGenerator, increment, set_counter}

-- `atomic.CompareAndSwapUint64(&tg.counter, old, val)`
unfoldable pub compare_and_swap : ℕ → ℕ → TimestampGenerator → TimestampGenerator × Bool
compare_and_swap old val tg =
    if tg.counter == old then (record { counter = val }, true) else (tg, false)

-- One step of some thread, with the timestamp that it hands out: an Increment, or the
-- compare-and-swap of a Set of `val` whose load saw `old` and did not return. `old` may be stale.
pub data Step : TimestampGenerator → Option ℕ → TimestampGenerator → Type 0 where
  increments :
      (tg : TimestampGenerator)
      → tg.counter + 1 < 2 ^ 64
      → Step tg (some (increment tg).1) (increment tg).0
  sets :
      (tg : TimestampGenerator) (old val : ℕ)
      → leb val old ≡ false
      → Step tg none (compare_and_swap old val tg).0

abbrev pub issue : Option ℕ → List ℕ → List ℕ
issue none issued = issued
issue (some ts) issued = ts ∷ issued

-- The steps of all threads in the order in which they took effect, and the timestamps that they
-- handed out, the last first.
pub data Run (start : TimestampGenerator) : List ℕ → TimestampGenerator → Type 0 where
  fresh : Run start [] start
  step :
      {issued : List ℕ} {out : Option ℕ} {tg tg' : TimestampGenerator}
      → Run start issued tg
      → Step tg out tg'
      → Run start (issue out issued) tg'

-- The timestamps lie above `lo` and at most at `hi`, and each is above those handed out before.
abbrev pub Increasing : ℕ → ℕ → List ℕ → Type 0
Increasing lo hi [] = lo ≤ hi
Increasing lo hi (ts ∷ earlier) = (ts ≤ hi) × (lo < ts) × Increasing lo (ts - 1) earlier

Increasing-le :
    (lo hi hi' : ℕ) (issued : List ℕ)
    → hi ≤ hi'
    → Increasing lo hi issued
    → Increasing lo hi' issued
Increasing-le lo hi hi' [] h i = omega arith
Increasing-le lo hi hi' (ts ∷ earlier) h i = (omega arith, i.1, i.2)

Increasing-bound : (lo hi : ℕ) (issued : List ℕ) → Increasing lo hi issued → lo ≤ hi
Increasing-bound lo hi [] i = i
Increasing-bound lo hi (ts ∷ earlier) i = omega arith

Increasing-issue :
    (lo : ℕ) (issued : List ℕ) {tg : TimestampGenerator} {out : Option ℕ} {tg' : TimestampGenerator}
    → Increasing lo tg.counter issued
    → Step tg out tg'
    → Increasing lo tg'.counter (issue out issued)
unfolding increment compare_and_swap
Increasing-issue lo issued i (increments tg h) =
    let b : lo ≤ tg.counter = Increasing-bound lo tg.counter issued i in
    (
      omega arith,
      omega arith,
      Increasing-le lo tg.counter ((tg.counter + 1) % 2 ^ 64 - 1) issued (omega arith) i,
    )
Increasing-issue lo issued i (sets tg old val h) =
    Increasing-le lo tg.counter _ issued (ground arith) i

-- However the threads interleave, while the counter has not reached 2 ^ 64, every timestamp that
-- Increment hands out is above the counter at the start and above all those handed out before it,
-- and at most the counter at the end.
pub Run-Increasing :
    (start : TimestampGenerator) {issued : List ℕ} {tg : TimestampGenerator}
    → Run start issued tg
    → Increasing start.counter tg.counter issued
Run-Increasing start fresh = omega arith
Run-Increasing start (step r s) = Increasing-issue start.counter _ (Run-Increasing start r) s

-- A Set that swaps, and a Set whose load sees no smaller counter, leave what `set_counter` computes
-- from the counter at that moment: the larger of the two values.
pub set_counter-eq-swap :
    (old val : ℕ) (tg : TimestampGenerator)
    → leb val old ≡ false
    → (compare_and_swap old val tg).1 ≡ true
    → (compare_and_swap old val tg).0 ≡ set_counter val tg
unfolding compare_and_swap set_counter
set_counter-eq-swap old val tg h e = ground arith
