-- ===== src/Rbac.antt =====
-- rbac.engine.ts: what the roles of a user let them do.
pub mod Engine
pub mod Grants
mod Examples
