-- ===== src/Types.antt =====
-- crates/atlas-types/src/lib.rs: the data types that the tiers share.
pub mod Entity
pub mod Signal
pub mod Label
pub mod Link
pub mod Clock
