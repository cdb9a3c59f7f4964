-- ===== src/Balancing.antt =====
-- Load balancing (orion-lib/src/clusters/balancers).
pub mod Interface
pub mod Healthy
pub mod Wrr
mod Tests
