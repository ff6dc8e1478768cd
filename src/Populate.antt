-- ===== src/Populate.antt =====
-- The populators of src/populate, which read the chain for the validators.
pub mod ChainState
pub mod Header
