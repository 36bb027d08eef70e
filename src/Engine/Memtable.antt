-- ===== src/Engine/Memtable.antt =====
-- internal/engine/memtable: the arena, the skip list, and the table that the engine uses (memtable.go).
pub mod Arena
pub mod Chain
pub mod SkipList
pub mod Scan
pub mod Table
