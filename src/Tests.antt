-- ===== src/Tests.antt =====
-- Runs of the modelled code on concrete inputs, with `fixed` for the floats and a table for the
-- `DashMap`.
pub mod Stores
pub mod Sensors
pub mod Feeds
pub mod Graphs
pub mod Links
pub mod Caches
pub mod Agents
pub mod Offloads
pub mod Threads
pub mod Pipelines
pub mod Mains
