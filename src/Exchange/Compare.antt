-- ===== src/Exchange/Compare.antt =====
-- src/module/schema/core/service/exchange/compare.rs: `Matching` pairs by the flags `taken`, `Elements`
-- compares tables and their columns, `Drafts` whole schemas. `Steps` and `Kept` say what a comparison
-- goes through, `Totals`, `Free` and `Tables` what it counts; `InOrder`, `Alike`, `Linked` and `Itself` follow a
-- schema that is compared with itself.
pub mod Matching
pub mod Elements
pub mod Drafts
pub mod Steps
pub mod Kept
pub mod Totals
pub mod Free
pub mod Tables
pub mod InOrder
pub mod Alike
pub mod Linked
pub mod Itself
