-- ===== src/Validate.antt =====
-- The validators and the populators that they share work with: src/validate and src/populate.
pub mod Buckets
pub mod Block
