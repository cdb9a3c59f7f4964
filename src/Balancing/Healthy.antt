-- ===== src/Balancing/Healthy.antt =====
-- `HealthyBalancer` of orion-lib/src/clusters/balancers/healthy.rs.
pub mod Defs
pub mod Serving
