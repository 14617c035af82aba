-- ===== src/Errdef.antt =====
-- src/package/errdef.rs: the error every handler answers with, and what a caller is told of it.
-- `Code` is the code numbers and what they are on each transport, `Violations` the map of a
-- validation error, `Error` the error and its constructors, `Wire` the two answers made from it.
pub mod Code
pub mod Violations
pub mod Error
pub mod Wire
pub mod Laws
