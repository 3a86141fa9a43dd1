-- ===== src/Intelligence.antt =====
-- crates/intelligence: the prefix cache, the reasoning agent, the offload adapter and the guard.
pub mod Cache
pub mod Agent
pub mod Offload
pub mod Tee
pub mod Orchestrator
