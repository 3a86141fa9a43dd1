-- ===== src/HotTier.antt =====
-- crates/hot-tier: the entity store and the agent that watches it.
pub mod DashMap
pub mod Store
pub mod Channel
pub mod Sensing
pub mod Feed
