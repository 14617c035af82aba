-- ===== src/Exchange.antt =====
-- src/module/schema/core/service/exchange: reading a schema from a file, and measuring how much of
-- one schema came back in another.
pub mod Sql
pub mod Compare
pub mod Names
