-- ===== src/Http/Policy/Freshness.antt =====
-- How long a response stays fresh (`upstream_expiry`, cache/policy.cpp), from its `Cache-Control`.
use studio_bondage_club.Http
use studio_bondage_club.Http.{parse_cache_control}
use studio_bondage_club.Http.Policy
use studio_bondage_club.Http.Policy.{cache_control}
