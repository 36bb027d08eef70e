-- ===== src/Engine/Memtable/Table/Runs.antt =====
-- GetLatest at a table whose key was deleted.
use scoria_db.Base.{◌-◌, ◌^◌, ◌≡◌, refl, true, false, none, some, [], ◌∷◌, arith}
use scoria_db.Base.Map.{bytes_equal}
use scoria_db.Mvcc.{MvccKey, commit_ts, revert_timestamp}
use scoria_db.Engine.Memtable.SkipList.{put}
use scoria_db.Engine.Memtable.SkipList.Entries.{Entry, insert_entry}
use scoria_db.Engine.Memtable.SkipList.Version.{has_version}
use scoria_db.Engine.Memtable.SkipList.Fresh.{fresh_list, new_skip_list-Holds}
use scoria_db.Engine.Memtable.SkipList.Put.{Yields, put-Holds}
use scoria_db.Engine.Memtable.Table.{get_latest}
use scoria_db.Engine.Memtable.Table.Latest.{
  get_latest-last_live, last_live, versions_of, any_live, live_or, tombstone_or,
}

abbrev version : MvccKey
version = record { key = 97 ∷ []; timestamp = 2 ^ 64 - 6 }

abbrev stored : Entry
stored = record { key = version; value = some (7 ∷ []); deleted = false }

abbrev one_put : Yields (put version (some (7 ∷ [])) 3 fresh_list) (true, stored ∷ [])
unfolding fresh_list has_version insert_entry
one_put =
    put-Holds fresh_list [] version (some (7 ∷ [])) 3 new_skip_list-Holds.1 (omega arith)
      (omega arith) (omega arith)

get_latest-last_live_example : get_latest (97 ∷ []) one_put.0 ≡ (some (7 ∷ []), 5, true)
unfolding last_live versions_of any_live live_or tombstone_or commit_ts revert_timestamp bytes_equal
get_latest-last_live_example =
    get_latest-last_live one_put.0 (stored ∷ []) (97 ∷ []) one_put.2 (omega arith, tt)

deleted : Entry
deleted = record { key = record version { timestamp = 2 ^ 64 - 9 }; value = none; deleted = true }

-- A deleted key is still live, at the timestamp before its deletion.
deleted_key-live :
    last_live (versions_of (97 ∷ []) (stored ∷ deleted ∷ [])) ≡ (some (7 ∷ []), 5, true)
unfolding last_live versions_of any_live live_or tombstone_or commit_ts revert_timestamp bytes_equal
    deleted
deleted_key-live = refl
