-- ===== src/Engine/Memtable/Scan/Runs.antt =====
-- The walks at a table with one version.
use scoria_db.Base.{suc, ◌-◌, ◌^◌, ◌≡◌, true, false, some, [], ◌∷◌, arith}
use scoria_db.Mvcc.{MvccKey}
use scoria_db.Engine.Memtable.SkipList.{put}
use scoria_db.Engine.Memtable.SkipList.Entries.{Entry, insert_entry}
use scoria_db.Engine.Memtable.SkipList.Version.{has_version}
use scoria_db.Engine.Memtable.SkipList.Fresh.{fresh_list, new_skip_list-Holds}
use scoria_db.Engine.Memtable.SkipList.Put.{Yields, put-Holds}
use scoria_db.Engine.Memtable.Scan.{iterate, new_iterator}
use scoria_db.Engine.Memtable.Scan.Live.{iterate-live_entries, live_entries}

abbrev version : MvccKey
version = record { key = 97 ∷ []; timestamp = 2 ^ 64 - 6 }

abbrev stored : Entry
stored = record { key = version; value = some (7 ∷ []); deleted = false }

abbrev one_put : Yields (put version (some (7 ∷ [])) 3 fresh_list) (true, stored ∷ [])
unfolding fresh_list has_version insert_entry
one_put =
    put-Holds fresh_list [] version (some (7 ∷ [])) 3 new_skip_list-Holds.1 (omega arith)
      (omega arith) (omega arith)

iterate-live_entries_example :
    iterate (suc one_put.0.arena.total) one_put.0 (new_iterator one_put.0)
    ≡ some ((version, some (7 ∷ [])) ∷ [])
unfolding live_entries
iterate-live_entries_example = iterate-live_entries one_put.0 (stored ∷ []) one_put.2
