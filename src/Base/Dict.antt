-- ===== src/Base/Dict.antt =====
-- The finite map that stands for `std::collections::HashMap`: a list of keys and values. Its
-- equations hold whatever the order of the entries.
mod Laws
mod Counts
mod Defs
unfoldable pub use Defs.*
pub use Laws.*
pub use Counts.*
