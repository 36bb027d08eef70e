-- ===== src/Engine/Memtable/Table.antt =====
-- internal/engine/memtable/memtable.go: the table that the engine uses. Its nil checks are left out: a
-- table always has its list and arena.
pub mod Latest
mod Runs
use scoria_db.Base.{
  ℕ, zero, suc, Bool, true, false, not, Option, none, some, [], ◌==◌, if◌then◌else◌,
}
use scoria_db.Base.Bytes.{Bytes}
use scoria_db.Base.Map.{bytes_equal}
use scoria_db.Mvcc.{MvccKey, commit_ts, max_uint64}
use scoria_db.Engine.Memtable.Arena.{Arena, Node, node_at, new_node, index, max_height, reset}
use scoria_db.Engine.Memtable.SkipList.{
  SkipList, key_of, value_of, empty_list, new_skip_list, find_greater_or_equal,
}
use scoria_db.Engine.Memtable.Scan.{find_last}

-- MemTable, which is its skip list; NewMemTable.
unfoldable pub new_mem_table : Option SkipList
new_mem_table = new_skip_list

-- NewMemTableWithArena: the list's head is in the arena that is given up.
unfoldable pub new_mem_table_with_arena : Arena → Option SkipList
unfolding new_skip_list
new_mem_table_with_arena a = elim new_skip_list [
  | none ↦ none
  | some s ↦ some (record s { arena = a })
]

-- Len and Size, SizeBytes
unfoldable pub size : SkipList → ℕ
size s = s.length

unfoldable pub size_bytes : SkipList → ℕ
size_bytes s = s.arena.total

-- LastKey
unfoldable pub last_key : SkipList → MvccKey × SkipList
unfolding find_last
last_key s =
    let r = find_last s in
    (if r.0 == 0 then record { key = []; timestamp = 0 } else key_of (node_at r.0 r.1.arena), r.1)

-- The variables of GetLatest.
pub record LatestState : Type 0 where
  pub latest_val : Option Bytes
  pub latest_ts : ℕ
  pub found : Bool
  pub tombstone_ts : ℕ
  pub has_tombstone : Bool

abbrev pub latest_start : LatestState
latest_start = record {
  latest_val = none;
  latest_ts = 0;
  found = false;
  tombstone_ts = 0;
  has_tombstone = false;
}

-- One round of the loop.
unfoldable pub latest_step : Node → LatestState → LatestState
unfolding value_of commit_ts
latest_step n st =
    if n.deleted
    then record st { has_tombstone = true; tombstone_ts = commit_ts (key_of n) }
    else record st { latest_val = value_of n; latest_ts = commit_ts (key_of n); found = true }

unfoldable pub latest_loop : ℕ → Bytes → ℕ → LatestState → Arena → LatestState
unfolding latest_step
latest_loop zero key idx st a = st
latest_loop (suc fuel) key idx st a =
    let n = node_at idx a in
    let on = latest_loop fuel key (n.next 0) (latest_step n st) a in
    if idx == 0 then st else if not (bytes_equal n.key key) then st else on

abbrev pub latest_result : LatestState → Option Bytes × ℕ × Bool
latest_result st =
    if st.found
    then (st.latest_val, st.latest_ts, true)
    else if st.has_tombstone
    then (none, st.tombstone_ts, false)
    else (none, 0, false)

-- GetLatest: the value, its timestamp, and whether a live version was found.
unfoldable pub get_latest : Bytes → SkipList → Option Bytes × ℕ × Bool
unfolding find_greater_or_equal latest_loop
get_latest key s =
    let idx = find_greater_or_equal (record { key = key; timestamp = max_uint64 }) s in
    if idx == 0
    then (none, 0, false)
    else latest_result (latest_loop (suc s.arena.total) key idx latest_start s.arena)

-- Reset, and Close: all nodes are given up.
unfoldable pub close : SkipList → Option SkipList
unfolding new_node reset index
close s = elim (new_node [] none max_height (reset s.arena)) [
  | none ↦ none
  | some r ↦ some (empty_list r)
]
