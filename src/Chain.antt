-- ===== src/Chain.antt =====
-- src/interface/block_chain.cpp: the chain that the pools, validators and organizers share.
pub mod Database
pub mod Reader
pub mod Work
pub mod Fork
pub mod Writer
pub mod Startup
pub mod Recording
pub mod Queries
