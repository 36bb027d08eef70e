-- ===== src/Engine/MvccIterator/Runs.antt =====
-- Runs of the filter on small lists of versions.
use scoria_db.Base.{ℕ, ◌≡◌, ◌≢◌, true, false, none, some, List, [], ◌∷◌, arith}
use scoria_db.Base.Map.{bytes_equal}
use scoria_db.Engine.MvccIterator.{Version, new_mvcc_iterator, drain}
use scoria_db.Engine.MvccIterator.Visible.{visible}
use scoria_db.Engine.MvccIterator.Drain.{drain-visible}

abbrev put_of : ℕ → ℕ → Version
put_of k x = record { key = some (k ∷ []); value = some (x ∷ []); is_deleted = false }

abbrev tombstone_of : ℕ → Version
tombstone_of k = record { key = some (k ∷ []); value = none; is_deleted = true }

-- key 1: overwritten; key 2: deleted; key 3: deleted and put again
abbrev six_versions : List Version
six_versions =
    put_of 1 7 ∷ put_of 1 8 ∷ put_of 2 5 ∷ tombstone_of 2 ∷ tombstone_of 3 ∷ put_of 3 9 ∷ []

drain-visible_example :
    drain 7 (new_mvcc_iterator six_versions) ≡ some ((1 ∷ [], 8 ∷ []) ∷ (3 ∷ [], 9 ∷ []) ∷ [])
unfolding visible bytes_equal
drain-visible_example =
    drain-visible six_versions 7 (omega arith)
      (proper 1, (proper 1, (proper 2, (proper 2, (proper 3, (proper 3, tt))))))
  where
    proper : (k : ℕ) → some (k ∷ []) ≢ some []
    proper k e = ground (arith, e)
