-- ===== src/Txn.antt =====
-- internal/txn: write batches, and transactions over the engine's interface.
pub mod Batch
pub mod Interface
pub mod Transaction
