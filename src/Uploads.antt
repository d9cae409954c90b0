-- ===== src/Uploads.antt =====
-- The uploads: how many images are processed at once.
pub mod Semaphore
mod Examples
