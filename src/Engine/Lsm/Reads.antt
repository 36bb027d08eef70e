-- ===== src/Engine/Lsm/Reads.antt =====
-- The reads of the engine.
use scoria_db.Base.{
  ℕ, Bool, true, false, Option, none, some, List, [], ◌∷◌, ◌++◌, ltb, ◌==◌, if◌then◌else◌, length,
  Result, ok, err, ◌>>=◌,
}
use scoria_db.Base.Bytes.{Bytes}
use scoria_db.Base.Map.{bytes_equal}
use scoria_db.Mvcc.{MvccKey, new_mvcc_key, commit_ts}
use scoria_db.Engine.Memtable.SkipList.{SkipList, get}
use scoria_db.Engine.Memtable.Table.{get_latest}
use scoria_db.Engine.Lsm.{ValueStores, Reader, Shard, LsmEngine, EngineError, engine_closed}
use scoria_db.Engine.Lsm.Values.{decode_stored_value}

-- The loop over the active memory tables.
unfoldable pub find_in_tables : MvccKey → List Shard → Option (Option Bytes)
unfolding get
find_in_tables key [] = none
find_in_tables key (shard ∷ shards) =
    let rest = find_in_tables key shards in
    elim (get key shard.mem_table) [ none ↦ rest | some stored ↦ some stored ]

unfoldable pub find_in_level : MvccKey → List Reader → Option Bytes
find_in_level key [] = none
find_in_level key (reader ∷ readers) =
    let rest = find_in_level key readers in
    elim (reader.lookup key) [ none ↦ rest | some stored ↦ some stored ]

unfoldable pub find_in_levels : MvccKey → List (List Reader) → Option Bytes
unfolding find_in_level
find_in_levels key [] = none
find_in_levels key (level ∷ levels) =
    let rest = find_in_levels key levels in
    elim (find_in_level key level) [ none ↦ rest | some stored ↦ some stored ]

-- The variables of the scan of a table in GetLatestInfo: the best timestamp and its value.
unfoldable pub best_of : Bytes → List (MvccKey × Bytes) → ℕ × Option Bytes → ℕ × Option Bytes
unfolding commit_ts
best_of key [] best = best
best_of key ((k, value) ∷ rest) best = best_of key rest (
    if bytes_equal k.key key
    then (if ltb best.0 (commit_ts k) then (commit_ts k, some value) else best)
    else best)

-- The memory tables of all shards, the active one of a shard first.
unfoldable pub table_list : List Shard → List SkipList
table_list [] = []
table_list (shard ∷ shards) =
    let rest = table_list shards in
    shard.mem_table ∷ elim shard.frozen_mem_table [ none ↦ rest | some frozen ↦ frozen ∷ rest ]

module _ {V : Type 0} (stores : ValueStores V) where
  unfoldable pub get_with_ts : Bytes → ℕ → LsmEngine V → Result EngineError (Option Bytes)
  unfolding new_mvcc_key find_in_tables find_in_levels decode_stored_value
  get_with_ts key snapshot_ts e =
      let mvcc_key = new_mvcc_key key snapshot_ts in
      if e.closed then err engine_closed else elim (find_in_tables mvcc_key e.shards) [
        | some stored ↦ decode_stored_value stores e.values stored
        | none ↦ elim (find_in_levels mvcc_key e.levels) [
          | some stored ↦ decode_stored_value stores e.values (some stored)
          | none ↦ ok none
        ]
      ]

  -- A value that is found, with its timestamp.
  unfoldable pub found_value : Option Bytes → ℕ → V → Result EngineError (Option Bytes × ℕ × Bool)
  unfolding decode_stored_value
  found_value stored ts values = do
    value ← decode_stored_value stores values stored
    ok (value, ts, true)

  -- The loop over the memory tables; `none` goes on to the SSTables.
  unfoldable pub latest_in_tables :
      Bytes → List SkipList → V → Option (Result EngineError (Option Bytes × ℕ × Bool))
  unfolding get_latest found_value
  latest_in_tables key [] values = none
  latest_in_tables key (table ∷ tables) values =
      let (stored, ts, found) = get_latest key table in
      let rest = latest_in_tables key tables values in
      if ts == 0
      then rest
      else if found
      then some (found_value stored ts values)
      else some (ok (none, ts, false))

  -- One SSTable; an empty value is a tombstone.
  unfoldable pub latest_in_reader :
      Bytes → Reader → V → Option (Result EngineError (Option Bytes × ℕ × Bool))
  unfolding best_of found_value
  latest_in_reader key reader values = elim reader.scan [
    | none ↦ none
    | some pairs ↦
        let (best_ts, best_value) = best_of key pairs (0, none) in
        if best_ts == 0 then none else elim best_value [
          | none ↦ some (ok (none, best_ts, false))
          | some value ↦
              if length value == 0
              then some (ok (none, best_ts, false))
              else some (found_value (some value) best_ts values)
        ]
  ]

  unfoldable pub latest_in_readers :
      Bytes → List Reader → V → Option (Result EngineError (Option Bytes × ℕ × Bool))
  unfolding latest_in_reader
  latest_in_readers key [] values = none
  latest_in_readers key (reader ∷ readers) values =
      let rest = latest_in_readers key readers values in
      elim (latest_in_reader key reader values) [ none ↦ rest | some result ↦ some result ]

  unfoldable pub flatten : List (List Reader) → List Reader
  flatten [] = []
  flatten (level ∷ levels) = level ++ flatten levels

  unfoldable pub get_latest_info :
      Bytes → LsmEngine V → Result EngineError (Option Bytes × ℕ × Bool)
  unfolding table_list latest_in_tables latest_in_readers flatten
  get_latest_info key e =
      if e.closed
      then err engine_closed
      else elim (latest_in_tables key (table_list e.shards) e.values) [
        | some result ↦ result
        | none ↦ elim (latest_in_readers key (flatten e.levels) e.values) [
          | some result ↦ result
          | none ↦ ok (none, 0, false)
        ]
      ]
