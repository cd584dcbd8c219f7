-- ===== src/LimitOrders.antt =====
-- Limit orders (src/modules/limit-orders.ts): the values that the contract returns, read and checked; the
-- operations that are built from them; and their submission, which may be repeated.
pub mod ScVal
pub mod Parse
pub mod Parsed
pub mod Resubmit
pub mod Once
pub mod Build
pub mod Orders
pub mod Guarded
pub mod Settled
pub mod Resent
mod Tests
mod OrderTests
