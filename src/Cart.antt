-- ===== src/Cart.antt =====
-- cart-validation.service.ts: what of a cart can be bought now.
pub mod Validation
pub mod Availability
pub mod Purchase
pub mod Merging
mod Examples
