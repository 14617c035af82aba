-- ===== src/SchemaService/Postgres.antt =====
-- src/module/schema/adapter/repository/postgres.rs: the schemas of every user in two tables.
pub mod Stored
pub mod RoundTrip
pub mod Rows
pub mod Statements
pub mod Repository
pub mod Keys
pub mod Ownership
pub mod Changes
pub mod Isolation
pub mod Found
