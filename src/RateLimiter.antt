-- ===== src/RateLimiter.antt =====
-- Local rate limiting (orion-lib/src/listeners/rate_limiter).
pub mod TokenBucket
mod Tests
