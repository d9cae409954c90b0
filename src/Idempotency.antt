-- ===== src/Idempotency.antt =====
-- idempotency.service.ts: request keys, in Redis or, where it is away, in the table.
pub mod Types
pub mod Service
pub mod Contract
pub mod Commands
pub mod Refinement
pub mod Replay
pub mod Race
pub mod Persistence
mod Examples
