-- ===== src/RateLimit.antt =====
-- Rate limiting: app/inbound/http/middleware/rate_limit.py and rate_limit_policy.py.
pub mod Gcra
pub mod Policy
pub mod Client
pub mod Middleware
