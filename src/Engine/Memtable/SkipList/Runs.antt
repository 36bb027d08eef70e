-- ===== src/Engine/Memtable/SkipList/Runs.antt =====
-- The theorems on the skip list at a list with one version.
use scoria_db.Base.{◌-◌, ◌^◌, ◌≡◌, true, false, none, some, [], ◌∷◌, arith}
use scoria_db.Base.Map.{bytes_equal}
use scoria_db.Mvcc.{MvccKey, commit_ts, revert_timestamp}
use scoria_db.Engine.Memtable.SkipList.{SkipList, put, get, delete_with_ts}
use scoria_db.Engine.Memtable.SkipList.Entries.{Entry, insert_entry}
use scoria_db.Engine.Memtable.SkipList.Version.{has_version}
use scoria_db.Engine.Memtable.SkipList.Newest.{newest_value, newest, visible, newer, outcome}
use scoria_db.Engine.Memtable.SkipList.Fresh.{fresh_list, new_skip_list-Holds}
use scoria_db.Engine.Memtable.SkipList.Put.{Yields, put-Holds}
use scoria_db.Engine.Memtable.SkipList.Reads.{get-newest_value}
use scoria_db.Engine.Memtable.SkipList.Delete.{find_version}
use scoria_db.Engine.Memtable.SkipList.Removal.{delete_with_ts-Holds, deleted_at}

abbrev version : MvccKey
version = record { key = 97 ∷ []; timestamp = 2 ^ 64 - 6 }

abbrev stored : Entry
stored = record { key = version; value = some (7 ∷ []); deleted = false }

put-Holds_example : Yields (put version (some (7 ∷ [])) 3 fresh_list) (true, stored ∷ [])
unfolding fresh_list has_version insert_entry
put-Holds_example =
    put-Holds fresh_list [] version (some (7 ∷ [])) 3 new_skip_list-Holds.1 (omega arith)
      (omega arith) (omega arith)

abbrev one_put : Yields (put version (some (7 ∷ [])) 3 fresh_list) (true, stored ∷ [])
unfolding fresh_list has_version insert_entry
one_put =
    put-Holds fresh_list [] version (some (7 ∷ [])) 3 new_skip_list-Holds.1 (omega arith)
      (omega arith) (omega arith)

abbrev one_version : SkipList
one_version = one_put.0

get-newest_value_example :
    get (record version { timestamp = 2 ^ 64 - 9 }) one_version ≡ some (some (7 ∷ []))
unfolding newest_value newest visible newer outcome commit_ts revert_timestamp bytes_equal
get-newest_value_example =
    get-newest_value one_version (stored ∷ []) (record version { timestamp = 2 ^ 64 - 9 }) one_put.2
      (omega arith, tt) (omega arith)

abbrev tomb : Entry
tomb = record { key = version; value = none; deleted = true }

delete_with_ts-Holds_example : Yields (delete_with_ts version 2 fresh_list) (true, tomb ∷ [])
unfolding deleted_at find_version insert_entry fresh_list
delete_with_ts-Holds_example =
    delete_with_ts-Holds fresh_list [] version 2 new_skip_list-Holds.1 (omega arith) (omega arith)
      (omega arith) (omega arith)
