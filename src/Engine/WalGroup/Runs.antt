-- ===== src/Engine/WalGroup/Runs.antt =====
-- A writer that takes two records, and one that drops the end of a large one.
use scoria_db.Base.{◌≡◌, refl, true, List, [], ◌∷◌, arith}
use scoria_db.Engine.WalGroup.{
  Event, write_event, written, flush_event, sync_event, tick, run, step, write, flush_locked, sync,
  new_group_commit_writer,
}
use scoria_db.Engine.WalGroup.Accepted.{accepted, accepted_by, tick-accepted}

abbrev events : List Event
events =
    write_event (1 ∷ 2 ∷ []) written
    ∷ flush_event written
    ∷ sync_event true
    ∷ write_event (3 ∷ []) written
    ∷ []

tick-accepted_example :
    (tick written (run events (new_group_commit_writer (9 ∷ []) true))).file ≡ 9 ∷ 1 ∷ 2 ∷ 3 ∷ []
unfolding accepted accepted_by run step write flush_locked sync
tick-accepted_example =
    tick-accepted (9 ∷ []) true events
      ((refl, omega arith), (refl, (tt, ((refl, omega arith), tt))))
