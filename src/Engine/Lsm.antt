-- ===== src/Engine/Lsm.antt =====
-- internal/engine/lsm.go: the engine over its shards, their memory tables and logs, the SSTables and the
-- cache of commit timestamps. The stores of large values and the tables are interfaces: a table is what
-- it answers. The heights that the skip lists draw are arguments; the byte counters that start a flush
-- and the background tasks are left out.
pub mod Values
pub mod Reads
pub mod Writes
pub mod Conflicts
pub mod Committed
pub mod Stored
pub mod Transactional
mod Runs
use scoria_db.Base.{ℕ, ◌+◌, ◌*◌, ◌%◌, ◌^◌, Bool, Option, List, [], ◌∷◌, ◌==◌, if◌then◌else◌, length}
use scoria_db.Base.Bytes.{Bytes}
use scoria_db.Mvcc.{MvccKey}
use scoria_db.Engine.ValuePointer.{ValuePointer}
use scoria_db.Engine.Cache.{LastCommitCache}
use scoria_db.Engine.Memtable.SkipList.{SkipList}
use Prim.Native.Nat.{bit_xor}

-- What the engine calls of the unified mmap and the value log: WriteEntry, Size, ReadValue, and Size and
-- ReadDirect. `none` is an error.
pub record ValueStores (V : Type 0) : Type 0 where
  pub write_entry : ℕ → Bytes → Bytes → ℕ → V → Option (ℕ × V)
  pub mmap_size : V → ℕ
  pub read_value : ℕ → ℕ → V → Option Bytes
  pub vlog_size : V → ℕ
  pub read_direct : ValuePointer → V → Option Bytes

-- A reader of an SSTable: Lookup, and what an iterator yields; `none` where there is no iterator.
pub record Reader : Type 0 where
  pub lookup : MvccKey → Option Bytes
  pub scan : Option (List (MvccKey × Bytes))

pub record Shard : Type 0 where
  pub mem_table : SkipList
  pub frozen_mem_table : Option SkipList
  pub wal : Bytes

pub record LsmEngine (V : Type 0) : Type 0 where
  pub closed : Bool
  pub last_ts : ℕ
  pub shards : List Shard
  pub levels : List (List Reader)
  pub cache : LastCommitCache
  pub values : V

pub data EngineError : Type 0 where
  engine_closed wal_failed value_write_failed value_read_failed batch_malformed : EngineError

-- NextTimestamp: the counter wraps.
unfoldable pub next_timestamp : {V : Type 0} → LsmEngine V → ℕ × LsmEngine V
next_timestamp e = let ts = (e.last_ts + 1) % 2 ^ 64 in (ts, record e { last_ts = ts })

-- hashKey: FNV-1a
unfoldable pub hash_bytes : ℕ → Bytes → ℕ
hash_bytes h [] = h
hash_bytes h (b ∷ bs) = hash_bytes (bit_xor h b * 1099511628211 % 2 ^ 64) bs

unfoldable pub hash_key : Bytes → ℕ
unfolding hash_bytes
hash_key key = hash_bytes 1469598103934665603 key

unfoldable pub shard_index : {V : Type 0} → Bytes → LsmEngine V → ℕ
unfolding hash_key
shard_index key e = if length e.shards == 0 then 0 else hash_key key % length e.shards
