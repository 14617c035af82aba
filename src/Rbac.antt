-- ===== src/Rbac.antt =====
-- src/package/rbac: which actions a user is allowed. `Engine` is engine.rs with `split_action` of
-- mod.rs; the store behind it is the interface `Store`, whose answers fail as `none`.
pub mod Engine
pub mod Laws
