-- ===== src/Examples.antt =====
-- The laws at work: small pools, indexes and blocks, and runs of the code on them.
mod Data
mod HeaderPools
mod Branches
mod BlockPools
mod Chains
mod Validation
mod Queries
mod Evaluations
mod Recordings
mod Population
mod Organizing
