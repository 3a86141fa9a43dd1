-- ===== src/WarmTier.antt =====
-- crates/warm-tier/src/lib.rs: the label store, the causal graph, its traversal, and its links.
pub mod LabelStore
pub mod Graph
pub mod Activation
pub mod Stats
pub mod Materialize
