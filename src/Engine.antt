-- ===== src/Engine.antt =====
-- internal/engine: the storage engine.
pub mod ValuePointer
pub mod Wal
pub mod WalGroup
pub mod Snapshot
pub mod MvccIterator
pub mod Manifest
pub mod Recovery
pub mod Cache
pub mod Lsm
pub mod Compaction
pub mod Sstable
pub mod Vlog
pub mod Memtable
