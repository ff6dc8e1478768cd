-- ===== src/Organizers.antt =====
-- The organizers: src/organizers and the validators that they drive.
pub mod Header
pub mod Transaction
pub mod Block
