-- ===== src/Exchange/Sql.antt =====
-- src/module/schema/core/service/exchange/sql: the reader of SQL scripts.
pub mod Types
pub mod Token
pub mod Runs
pub mod Hint
pub mod Scan
pub mod Cursor
