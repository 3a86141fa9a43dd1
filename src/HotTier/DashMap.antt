-- ===== src/HotTier/DashMap.antt =====
-- The crate `dashmap`, as far as the program calls it: operations that the model takes as a
-- parameter, and the laws that its documentation promises, each as seen through `get` and `iter`.
mod Derived
mod Defs
unfoldable pub use Defs.*
pub use Derived.*
