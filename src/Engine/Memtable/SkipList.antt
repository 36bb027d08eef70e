-- ===== src/Engine/Memtable/SkipList.antt =====
-- internal/engine/memtable/skiplist.go: the skip list. Writers hold its lock, so the methods are
-- taken one after the other; the epochs that keep readers from a reset are left out. The height that
-- randomHeight draws is an argument. The index 0 ends a chain; the head node has it too.
pub mod Order
pub mod Search
pub mod Valid
pub mod Linked
pub mod Placed
pub mod Inserted
pub mod Kept
pub mod Entries
pub mod Put
pub mod Version
pub mod Newest
pub mod Insertion
pub mod Get
pub mod Reads
pub mod Marked
pub mod Delete
pub mod Removal
pub mod Fresh
mod Runs
use scoria_db.Base.{
  ℕ, zero, suc, ◌+◌, ◌-◌, Bool, true, false, not, ◌&&◌, ◌||◌, Option, none, some, [], Ordering, ltb,
  ◌==◌, if◌then◌else◌, length,
}
use scoria_db.Base.Bytes.{Bytes}
use scoria_db.Base.Map.{bytes_equal}
use scoria_db.Keys.{compare_keys}
use scoria_db.Mvcc.{max_uint64, MvccKey, commit_ts}
use scoria_db.Engine.Memtable.Arena.{
  max_height, Node, Arena, new_arena, new_node, index, node_at, write,
}

pub record SkipList : Type 0 where
  pub arena : Arena
  pub head_idx : ℕ
  pub height : ℕ
  pub length : ℕ
  pub last_active : ℕ

-- The list of an arena whose head node has just been allocated.
abbrev pub empty_list : ℕ × Arena → SkipList
empty_list (pointer, a) = record {
  arena = a;
  head_idx = index pointer;
  height = 1;
  length = 0;
  last_active = 0;
}

unfoldable pub new_skip_list : Option SkipList
unfolding new_node new_arena index
new_skip_list = elim (new_node [] none max_height new_arena) [
  | none ↦ none
  | some r ↦ some (empty_list r)
]

-- Key of a node; an empty key is nil.
abbrev pub key_of : Node → MvccKey
key_of n = record { key = n.key; timestamp = n.ts }

unfoldable pub value_of : Node → Option Bytes
value_of n = if n.deleted then none else n.value

unfoldable pub node_key_less : MvccKey → MvccKey → Bool
node_key_less a b = elim (compare_keys a.key b.key) [
  | Ordering.lt ↦ true
  | Ordering.gt ↦ false
  | Ordering.eq ↦ ltb b.timestamp a.timestamp
]

-- The inner loop of a search on one level: on to the last node before the key.
unfoldable pub walk : ℕ → ℕ → MvccKey → ℕ → Arena → ℕ
walk zero level key idx a = idx
walk (suc fuel) level key idx a =
    let next_idx = (node_at idx a).next level in
    let on = walk fuel level key next_idx a in
    if not (next_idx == 0) && node_key_less (key_of (node_at next_idx a)) key then on else idx

-- Every node takes bytes of the arena, so their total is enough for a walk.
unfoldable pub find_from : ℕ → MvccKey → ℕ → Arena → ℕ
unfolding walk
find_from zero key idx a = 0
find_from (suc level) key idx a =
    let idx' = walk a.total level key idx a in
    let below = find_from level key idx' a in if level == 0 then (node_at idx' a).next 0 else below

-- findGreaterOrEqual, and findGreaterOrEqualNoEpoch
unfoldable pub find_greater_or_equal : MvccKey → SkipList → ℕ
unfolding find_from
find_greater_or_equal key s = find_from s.height key s.head_idx s.arena

abbrev pub same_version : MvccKey → MvccKey → Bool
same_version a b = bytes_equal a.key b.key && a.timestamp == b.timestamp

unfoldable pub find_exact : MvccKey → SkipList → ℕ
unfolding find_greater_or_equal
find_exact key s =
    let idx = find_greater_or_equal key s in
    let nk = key_of (node_at idx s.arena) in
    if idx == 0 then 0 else if length nk.key == 0 || not (same_version nk key) then 0 else idx

-- The loop of Get over the versions of a key, with what it has found so far.
unfoldable pub get_loop : ℕ → MvccKey → ℕ → Option (Option Bytes) → Arena → Option (Option Bytes)
unfolding commit_ts value_of
get_loop zero key idx found a = found
get_loop (suc fuel) key idx found a =
    let n = node_at idx a in
    let on = get_loop fuel key (n.next 0) (if n.deleted then none else some (value_of n)) a in
    if idx == 0
    then found
    else if not (bytes_equal n.key key.key)
    then found
    else if ltb (commit_ts key) (commit_ts (key_of n))
    then found
    else on

-- Get: `none` is not found.
unfoldable pub get : MvccKey → SkipList → Option (Option Bytes)
unfolding find_greater_or_equal get_loop
get key s =
    let oldest = find_greater_or_equal (record key { timestamp = max_uint64 }) s in
    let first = node_at oldest s.arena in
    if oldest == 0
    then none
    else if length first.key == 0 || not (bytes_equal first.key key.key)
    then none
    else get_loop (suc s.arena.total) key oldest none s.arena

-- The search of Put and DeleteWithTS, from the level `level - 1` down: the node before the key on
-- each level.
unfoldable pub find_prevs : ℕ → MvccKey → ℕ → (ℕ → ℕ) → Arena → ℕ → ℕ
unfolding walk
find_prevs zero key idx prevs a = prevs
find_prevs (suc level) key idx prevs a =
    let idx' = walk a.total level key idx a in
    find_prevs level key idx' (λ l. if l == level then idx' else prevs l) a

abbrev pub set_next : ℕ → ℕ → ℕ → Arena → Arena
set_next idx level target a =
    write idx
      (record (node_at idx a) { next = λ l. if l == level then target else (node_at idx a).next l })
      a

-- The loop that links a node on the levels below `height`, from the lowest on. The node itself is
-- written by its pointer.
unfoldable pub link_levels : ℕ → ℕ → ℕ → (ℕ → ℕ) → Arena → Arena
link_levels zero pointer idx prevs a = a
link_levels (suc level) pointer idx prevs a =
    let a' = link_levels level pointer idx prevs a in
    set_next (prevs level) level idx
      (set_next pointer level ((node_at (prevs level) a').next level) a')

unfoldable pub update_last_active : ℕ → SkipList → SkipList
unfolding node_key_less
update_last_active idx s =
    let n = node_at idx s.arena in
    let last = node_at s.last_active s.arena in
    if n.deleted
    then s
    else if s.last_active == 0 || node_key_less (key_of last) (key_of n)
    then record s { last_active = idx }
    else s

-- A node of the given height, linked behind `prevs`. `none` is the arena's panic.
unfoldable pub insert_node :
    MvccKey → Option Bytes → Bool → ℕ → (ℕ → ℕ) → SkipList → Option SkipList
unfolding new_node index link_levels update_last_active
insert_node key value deleted height prevs s = elim (new_node key.key value height s.arena) [
  | none ↦ none
  | some (pointer, a) ↦
      let idx = index pointer in
      let a' =
        write pointer (record (node_at pointer a) { ts = key.timestamp; deleted = deleted }) a in
      some (
        update_last_active idx (record s {
          arena = link_levels height pointer idx prevs a';
          height = if ltb s.height height then height else s.height;
        }))
]

unfoldable pub put : MvccKey → Option Bytes → ℕ → SkipList → Option (Bool × SkipList)
unfolding find_prevs insert_node
put key value height s =
    let prevs = find_prevs s.height key s.head_idx (λ l. s.head_idx) s.arena in
    let next_idx = (node_at (prevs 0) s.arena).next 0 in
    if not (next_idx == 0) && same_version (key_of (node_at next_idx s.arena)) key
    then some (false, s)
    else elim (insert_node key value false height prevs s) [
      | none ↦ none
      | some s' ↦ some (true, record s' { length = s'.length + 1 })
    ]

-- A live node becomes a tombstone; one that is a tombstone stays. The epoch manager's list of retired
-- nodes is left out.
unfoldable pub mark_deleted : ℕ → SkipList → Bool × SkipList
mark_deleted idx s =
    let n = node_at idx s.arena in
    if n.deleted then (false, s) else (
      true,
      record s {
        arena = write idx (record n { deleted = true }) s.arena;
        length = s.length - 1;
        last_active = if s.last_active == idx then 0 else s.last_active;
      },
    )

unfoldable pub delete : MvccKey → SkipList → Bool × SkipList
unfolding find_exact mark_deleted
delete key s = let idx = find_exact key s in if idx == 0 then (false, s) else mark_deleted idx s

unfoldable pub delete_with_ts : MvccKey → ℕ → SkipList → Option (Bool × SkipList)
unfolding find_exact mark_deleted find_prevs insert_node
delete_with_ts key height s =
    let idx = find_exact key s in
    let prevs = find_prevs s.height key s.head_idx (λ l. s.head_idx) s.arena in
    if idx == 0
    then elim (insert_node key none true height prevs s) [ none ↦ none | some s' ↦ some (true, s') ]
    else some (mark_deleted idx s)
