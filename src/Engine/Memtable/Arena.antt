-- ===== src/Engine/Memtable/Arena.antt =====
-- internal/engine/memtable/arena.go: the allocator of nodes. A pointer is its offset in all blocks
-- together, and the memory is the nodes at the pointers; a fresh block is zeroed, so a place that was
-- never written reads as the zero node. Allocations are taken one after the other: the only caller
-- holds the lock of the skip list. Sizes are never negative, and no index
-- behind the last block is looked up.
pub mod Bounds
mod Runs
use scoria_db.Base.{
  ℕ, ◌+◌, ◌*◌, ◌/◌, ◌%◌, ◌^◌, Bool, false, Option, none, some, [], leb, ◌==◌, if◌then◌else◌, length,
}
use scoria_db.Base.Bytes.{Bytes}

abbrev pub max_height : ℕ
max_height = 20

abbrev pub arena_block_size : ℕ
arena_block_size = 4 * 1024 * 1024

-- `unsafe.Sizeof(Node{})`: 6 fields of 4 bytes, one of 8, and 20 links of 4, aligned to 8
abbrev pub node_size : ℕ
node_size = 112

-- Key and value are the bytes behind the node. A nil value has the offset 0.
pub record Node : Type 0 where
  pub key : Bytes
  pub value : Option Bytes
  pub ts : ℕ
  pub deleted : Bool
  pub height : ℕ
  pub next : ℕ → ℕ

abbrev pub zero_node : Node
zero_node = record {
  key = [];
  value = none;
  ts = 0;
  deleted = false;
  height = 0;
  next = λ level. 0;
}

pub record Arena : Type 0 where
  pub blocks : ℕ
  pub block_idx : ℕ
  pub head : ℕ
  pub total : ℕ
  pub memory : ℕ → Node

unfoldable pub new_arena : Arena
new_arena = record { blocks = 1; block_idx = 0; head = 0; total = 0; memory = λ pointer. zero_node }

-- `(size + 7) & ^7`, for at least one byte
unfoldable pub aligned : ℕ → ℕ
aligned size = if size == 0 then 8 else (size + 7) / 8 * 8

-- The pointer to the next free byte of the current block.
abbrev pub frontier : Arena → ℕ
frontier a = a.block_idx * arena_block_size + a.head

-- The bytes behind the head are taken.
unfoldable pub bump : ℕ → Arena → ℕ × Arena
bump size a = (frontier a, record a { head = a.head + size; total = (a.total + size) % 2 ^ 64 })

-- grow: a new block is current. `none` is the panic for an allocation larger than a block.
unfoldable pub grow : ℕ → Arena → Option (ℕ × Arena)
unfolding bump
grow size a =
    if leb size arena_block_size
    then some (bump size (record a { blocks = a.blocks + 1; block_idx = a.blocks; head = 0 }))
    else none

unfoldable pub alloc : ℕ → Arena → Option (ℕ × Arena)
unfolding aligned bump grow
alloc size a =
    if leb (a.head + aligned size) arena_block_size
    then some (bump (aligned size) a)
    else grow (aligned size) a

-- The bytes of a value behind the node; an empty value that is not nil takes one.
unfoldable pub value_room : Option Bytes → ℕ
value_room none = 0
value_room (some value) = if length value == 0 then 1 else length value

abbrev pub write : ℕ → Node → Arena → Arena
write pointer node a = record a { memory = λ p. if p == pointer then node else a.memory p }

-- NewNode, which returns the pointer
unfoldable pub new_node : Bytes → Option Bytes → ℕ → Arena → Option (ℕ × Arena)
unfolding alloc value_room
new_node key value height a = elim (alloc (node_size + length key + value_room value) a) [
  | none ↦ none
  | some (pointer, a') ↦
      some
        (pointer, write pointer (record zero_node { key = key; value = value; height = height }) a')
]

-- Index and NodeAt: a node is named by 32 bits of its pointer.
unfoldable pub index : ℕ → ℕ
index pointer = pointer % 2 ^ 32

unfoldable pub node_at : ℕ → Arena → Node
node_at idx a = a.memory idx

-- Reset
unfoldable pub reset : Arena → Arena
unfolding new_arena
reset a = new_arena
