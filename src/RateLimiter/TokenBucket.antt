-- ===== src/RateLimiter/TokenBucket.antt =====
-- orion-lib/src/listeners/rate_limiter/token_bucket.rs
pub mod Defs
pub mod Window
pub mod Size
