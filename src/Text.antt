-- ===== src/Text.antt =====
-- Rust's `str`, as far as the source uses it: a text is the list of its code points.
-- `Case` holds the ASCII case conversions, and the Unicode tables of Rust's standard library as an
-- interface; `Trim` the white space at both ends; `Bytes` the length in UTF-8; `Decimal` the
-- printing of an unsigned number.
pub mod Trim
pub mod Case
pub mod Bytes
pub mod Decimal
pub mod Escape
mod Defs
unfoldable pub use Defs.*
