-- ===== src/Swap.antt =====
-- src/modules/swap.ts, class `SwapModule`.
pub mod Hops
pub mod Quote
pub mod MultiHop
pub mod Reverse
pub mod QuoteBounds
pub mod Forward
pub mod Fees
mod Tests
