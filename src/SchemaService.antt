-- ===== src/SchemaService.antt =====
-- src/module/schema/core: the operations on stored and drawn schemas. `Sample` is sample.rs, `Ports` is
-- ports.rs, `Service` is service/schema.rs, `Isolation` is a sequence of requests
-- of several callers, and `Postgres` is the store of src/module/schema/adapter/repository/postgres.rs.
pub mod Sample
pub mod Ports
pub mod Postgres
pub mod Service
pub mod Laws
pub mod Isolation
