-- ===== src/Retry.antt =====
-- When a request to an upstream is tried again (orion-lib/src/clusters/retry_policy.rs).
pub mod Policy
pub mod Decision
mod Tests
