-- ===== src/Pools.antt =====
-- The memory pools: include/bitcoin/blockchain/pools and src/pools.
pub mod HeaderBranch
pub mod HeaderPool
pub mod BlockPool
pub mod Evaluator
pub mod TransactionEntry
