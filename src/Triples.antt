-- ===== src/Triples.antt =====
-- What an action does to the tables, one rule for each way to build one.
mod Basic
mod Derived
pub use Basic.*
pub use Derived.*
