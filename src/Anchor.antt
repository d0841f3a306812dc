-- ===== src/Anchor.antt =====
-- src/mybench/anchor: what is published about a range of rows of the ledger, and its receipt.
pub mod Batch
pub mod Event
pub mod Receipt
