-- ===== src/Checkout.antt =====
-- checkout.service.ts: the lines of a request, their prices, and the amounts of the order.
pub mod Allocation
pub mod HandOut
pub mod Shares
pub mod Types
pub mod Normalize
pub mod Quote
pub mod Totals
pub mod Lines
pub mod Checks
pub mod Methods
pub mod Offers
mod Examples
