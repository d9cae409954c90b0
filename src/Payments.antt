-- ===== src/Payments.antt =====
-- Payments: the status machines of payments and orders, and the arithmetic of money,
-- backend/src/modules/payments.
pub mod Status
pub mod Enumeration
pub mod Money
pub mod Transition
pub mod Rounding
pub mod Paths
pub mod History
mod Examples
