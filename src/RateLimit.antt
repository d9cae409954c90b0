-- ===== src/RateLimit.antt =====
-- rate-limit.service.ts: how many calls a key gets through, by Redis and by the process itself.
pub mod Limiter
pub mod Gcra
pub mod Window
mod Examples
