-- ===== src/Engine/Sstable.antt =====
-- internal/engine/sstable: the tables on disk.
pub mod Bloom
pub mod Encoding
pub mod Entry
pub mod Block
pub mod Index
pub mod Footer
pub mod Writer
pub mod Reader
pub mod Table
pub mod Lifetime
pub mod Iterator
