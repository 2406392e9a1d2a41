-- ===== src/Cache.antt =====
-- The cache's choice of a rule for a request (cache/router.cpp).
pub mod Glob
pub mod Router
pub mod Version
