-- ===== src/Lib.antt =====
-- ScoriaDB: an LSM-tree key-value store with MVCC, a write-ahead log, column families and transactions.
--
-- How the parts interact. A transaction (internal/txn) buffers its writes, checks its keys for conflicts
-- at its start timestamp and gives the engine one encoded batch at a commit timestamp. The engine
-- (internal/engine) appends log records, keeps versions under keys that carry an inverted timestamp
-- (internal/mvcc, internal/keys), and after a crash replays the log into its memory table and rebuilds
-- its table levels from the manifest. The registry of snapshots tells compaction which versions are
-- still read. Scans go through the MVCC iterator. Column families (internal/cf) are engines by name.
--
-- Files and code:
--   Base          helpers: lists, results, permutations, bytes in both byte orders, signed integers,
--                 Go maps as association lists
--   Keys          internal/keys/keys.go: CompareKeys
--   Mvcc          internal/mvcc/mvcc.go: TimestampGenerator, MVCCKey and its order
--   Txn.Batch     internal/txn/batch.go: WriteBatch, EncodeBatch, DecodeBatch
--   Txn.Interface internal/txn/interface.go: the engine as transactions see it, a record of methods on
--                 a state, and the laws that transactions rely on
--   Txn.Transaction
--                 internal/txn/transaction.go: Begin, Get, Put, Delete, Commit, Rollback
--   Engine.ValuePointer
--                 internal/engine/value_pointer.go: tags of stored values, the pointer codec
--   Engine.Wal    internal/engine/wal.go: the record format, Write with a sync, Recover; Wal.Crc is the
--                 checksum of hash/crc32, Wal.Samples two records with their bytes
--   Engine.Memtable
--                 internal/engine/memtable: arena.go (Arena), skiplist.go (SkipList, Scan) and memtable.go
--                 (Table); Chain is the insertion into one chain of indices
--   Engine.WalGroup
--                 internal/engine/wal_group.go: the buffer in front of the log, with its loops as events
--   Engine.Cache  internal/engine/cache.go: the bounded cache of commit timestamps
--   Engine.Lsm    internal/engine/lsm.go: reads (Reads, Values), writes (Writes) and conflict checks
--                 (Conflicts) over the shards; Transactional is the engine as internal/txn calls it, with the
--                 laws that the theorems on transactions take
--   Engine.Compaction
--                 internal/engine/compaction.go: which versions a compaction keeps
--   Engine.Snapshot
--                 internal/engine/snapshot.go: the counts of active snapshots and the watermark
--   Engine.MvccIterator
--                 internal/engine/mvcc_iterator.go: the filter that shows one version of each key
--   Engine.Manifest
--                 internal/engine/manifest.go: edits of the table levels, their file, its recovery
--   Engine.Recovery
--                 internal/engine/recovery.go: recoverFromWAL, decodeBatchLocal, tagStoredValue
--   Engine.Vlog   internal/engine/vlog.go: the value log on the bytes of its file, from Open to Close
--   Engine.Sstable
--                 internal/engine/sstable: encoding.go (Encoding, the tags in Entry), bloom.go (Bloom),
--                 writer.go (Entry, Index, Footer and Block for what it writes of each, Writer), reader.go
--                 (the readers beside them, Reader, and Lifetime for Acquire, Release and Close) and
--                 iterator.go (Iterator); Table puts the writer, the reader and the iterator together
--   Cf.Registry   internal/cf/registry.go: CreateCF, GetCF, DropCF, ListCFs, Close
--   Cf.Batch      internal/cf/batch.go: CFWriteBatch, ApplyCFBatch
--
-- State and effects. A struct is a record, a method a function that returns the new record. A file is
-- its bytes. Errors are values: `Result`, or an `Option` of the error with the state behind it, since
-- the state changes on error paths too. A slice that may be nil is an `Option`; one that is only
-- measured and copied is a list. Methods under a lock are taken one after the other; the timestamp
-- generator, which has none, is a step relation in which threads load, compare and swap. Go visits a
-- map in any order, so Commit and ApplyCFBatch take the orders as arguments.
--
-- Integers. Numbers are natural numbers with the source's bounds: conversions to uint16, uint32 and
-- uint64 are `% 2 ^ w`, signed fields are integers with two's complement written out.
--
-- Arena and skip list. A pointer is its offset in all blocks together and the memory a function
-- from pointers to nodes; the links of a node are a function from levels. A valid list has a chain
-- of indices on each level, each a part of the one below.
--
-- Fuel. A walk along a level takes the arena's total of bytes, since each node takes some. Loops over
-- a file take a fuel of one more than its length, since each round reads a byte at least; the scan's
-- loop takes two more than the versions ahead, since each round takes one. The scan of a block and the
-- parse of an index take one more than their bytes, Next one more than its blocks. The theorems on
-- these functions show that the fuel is enough, or give a result that is not `stuck`.
--
-- Tables. A mapped file is its bytes; what may panic on a slice or an index is an error of its own or
-- `none`. The calls on a reader's reference count are split where another goroutine can come between:
-- the pieces are actions on a state, and a run is any sequence of them.
--
-- Compaction. Other threads open and close snapshots while it runs: the least active snapshot is read
-- again for each version, and what the reads find is an argument.
--
-- Arguments of the model: sort.Slice in the writer and in the collection of the value log, the
-- floating point formulas and the random seed of the Bloom filter, the growth of a file, which may
-- fail; the heights that skip list nodes draw; the stores of large values and the readers of SSTables,
-- as records of their methods; encoding/json in the manifest (Marshal, Unmarshal, and the stream that
-- a Decoder yields), with the hypothesis that a value is read back as it was written; the opening and
-- closing of engines in the registry; the memory table, the size of the value log and the routing of
-- keys in the recovery.
--
-- Not modelled: epochs, and with them readers beside a reset; the flat arena; the files of a flush and
-- of a compaction, the opening and the background tasks of the engine, the heap merges over tables
-- (internal/engine/iterator.go, merge_iterator.go), tables without a mapping, the counted views of the
-- value log, the unified mapping, authentication, the servers and the command line; failing reads of
-- files, and failing writes but in the group commit; generated and platform code.
pub mod Base
pub mod Keys
pub mod Mvcc
pub mod Txn
pub mod Engine
pub mod Cf
