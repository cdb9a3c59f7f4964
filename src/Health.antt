-- ===== src/Health.antt =====
-- Active health checking of upstream endpoints (orion-lib/src/clusters/health).
pub mod Status
pub mod Counter
pub mod Checker
pub mod Payload
mod Tests
