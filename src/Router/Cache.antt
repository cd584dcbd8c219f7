-- ===== src/Router/Cache.antt =====
-- The cache of `findOptimalPath` of src/modules/router.ts.
use coralswap_sdk.Market.{Market}
use coralswap_sdk.Router.Find.{Router}
