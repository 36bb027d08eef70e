-- ===== src/Engine/Memtable/Scan.antt =====
-- internal/engine/memtable/skiplist.go: the walks along the lowest level, which are the iterator and
-- FindLast, and the reset.
pub mod Live
mod Runs
use scoria_db.Base.{
  ℕ, zero, suc, Bool, true, false, not, Option, none, some, List, [], ◌∷◌, ◌==◌, if◌then◌else◌,
}
use scoria_db.Base.Bytes.{Bytes}
use scoria_db.Mvcc.{MvccKey}
use scoria_db.Engine.Memtable.Arena.{Arena, node_at}
use scoria_db.Engine.Memtable.SkipList.{SkipList, key_of, value_of}

-- A closed iterator is not modelled.
pub record SkipListIterator : Type 0 where
  pub current : ℕ
  pub done : Bool

abbrev pub new_iterator : SkipList → SkipListIterator
new_iterator s = record { current = s.head_idx; done = false }

-- The loop of Next, which passes over tombstones; `none` is no Go value: the fuel ran out.
unfoldable pub next_loop : ℕ → ℕ → Arena → Option (Bool × SkipListIterator)
next_loop zero current a = none
next_loop (suc fuel) current a =
    let next_idx = (node_at current a).next 0 in
    let on = next_loop fuel next_idx a in
    if next_idx == 0
    then some (false, record { current = current; done = true })
    else if (node_at next_idx a).deleted
    then on
    else some (true, record { current = next_idx; done = false })

unfoldable pub next : SkipList → SkipListIterator → Option (Bool × SkipListIterator)
unfolding next_loop
next s it = if it.done then some (false, it) else next_loop (suc s.arena.total) it.current s.arena

abbrev pub iterator_key : SkipList → SkipListIterator → MvccKey
iterator_key s it = key_of (node_at it.current s.arena)

abbrev pub iterator_value : SkipList → SkipListIterator → Option Bytes
iterator_value s it = value_of (node_at it.current s.arena)

-- `for iter.Next() { ... iter.Key() ... iter.Value() ... }`, the loop of flushOneMemTable: what it
-- takes from the table; `none` where the fuel ran out.
unfoldable pub iterate : ℕ → SkipList → SkipListIterator → Option (List (MvccKey × Option Bytes))
unfolding next value_of
iterate zero s it = none
iterate (suc fuel) s it = elim (next s it) [
  | none ↦ none
  | some (false, it') ↦ some []
  | some (true, it') ↦ elim (iterate fuel s it') [
    | none ↦ none
    | some rest ↦ some ((iterator_key s it', iterator_value s it') ∷ rest)
  ]
]

-- The loop of FindLast.
unfoldable pub last_loop : ℕ → ℕ → ℕ → Arena → ℕ
last_loop zero idx last_idx a = last_idx
last_loop (suc fuel) idx last_idx a =
    let next_idx = (node_at idx a).next 0 in
    let on =
      last_loop fuel next_idx (if (node_at next_idx a).deleted then last_idx else next_idx) a in
    if next_idx == 0 then last_idx else on

unfoldable pub find_last : SkipList → ℕ × SkipList
unfolding last_loop
find_last s =
    let last_idx = last_loop (suc s.arena.total) s.head_idx 0 s.arena in
    if not (s.last_active == 0)
    then (s.last_active, s)
    else (last_idx, if not (last_idx == 0) then record s { last_active = last_idx } else s)
