-- ===== src/Mvcc/Runs.antt =====
-- Timestamps and versions at concrete values.
use scoria_db.Base.{refl, [], ◌∷◌, arith}
use scoria_db.Mvcc.{TimestampGenerator, new_timestamp_generator, increment}
use scoria_db.Mvcc.Clock.{
  Run, fresh, step, increments, sets, Increasing, Run-Increasing, compare_and_swap,
}

abbrev start : TimestampGenerator
unfolding new_timestamp_generator
start = new_timestamp_generator

-- Two increments of one thread, and between them the Set of another that lost the race.
abbrev raced : Run start (3 ∷ 2 ∷ []) (record { counter = 3 })
unfolding increment compare_and_swap new_timestamp_generator
raced =
    step
      (step (step fresh (increments start (omega arith))) (sets (record { counter = 2 }) 1 9 refl))
      (increments (record { counter = 2 }) (omega arith))

Run-Increasing_example : Increasing start.counter 3 (3 ∷ 2 ∷ [])
Run-Increasing_example = Run-Increasing start raced
