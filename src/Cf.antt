-- ===== src/Cf.antt =====
-- internal/cf: column families, and batches that span several of them.
pub mod Registry
pub mod Batch
