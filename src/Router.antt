-- ===== src/Router.antt =====
-- The search for the best path over the pairs (src/modules/router.ts). A path is a list of token addresses.
pub mod Graph
pub mod Best
pub mod Find
pub mod Optimal
pub mod Paths
pub mod Chosen
pub mod Cache
mod Tests
