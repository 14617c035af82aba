-- ===== src/Domain.antt =====
-- The canonical schema model: src/module/schema/core/domain.
-- An `f64` is its IEEE 754 bit pattern and an instant is a number that grows with time, so both are
-- native numbers; a `usize` or `u32` that counts is a native number too.
pub mod DataType
pub mod Attribute
pub mod Entity
pub mod Relationship
pub mod Schema
pub mod Diagnostic
pub mod Dialect
pub mod ExchangeFormat
pub mod Comparison
