-- ===== src/Products.antt =====
-- product-measurement.ts: in which units a product may be sold.
pub mod Units
pub mod Presets
pub mod Measurement
pub mod Validity
mod Examples
