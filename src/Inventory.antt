-- ===== src/Inventory.antt =====
-- The inventory engine, backend/src/modules/inventory/inventory.service.ts.
pub mod Types
pub mod Tx
pub mod Rows
pub mod Claims
pub mod Locations
pub mod Items
pub mod Lines
pub mod Reserve
pub mod Confirm
pub mod Release
pub mod Adjust
pub mod Reconcile
pub mod Seed
pub mod Frames
pub mod Steps
pub mod Counts
pub mod Invariant
pub mod Turns
pub mod Loops
pub mod Creation
pub mod Taking
pub mod Soundness
pub mod Aggregation
pub mod Untouched
pub mod Replay
pub mod Idempotence
pub mod Reserving
pub mod Ending
pub mod Confirming
pub mod Releasing
pub mod History
mod Examples
