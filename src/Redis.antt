-- ===== src/Redis.antt =====
-- redis.service.ts: the commands, the circuit and the cache of the process that stands in for Redis.
pub mod Local
pub mod Service
pub mod Bounds
pub mod Calls
pub mod Entries
pub mod Keeping
mod Examples
