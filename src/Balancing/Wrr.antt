-- ===== src/Balancing/Wrr.antt =====
-- `WeightedRoundRobinBalancer` of orion-lib/src/clusters/balancers/wrr.rs.
pub mod Defs
pub mod Serving
pub mod Greatest
pub mod Exact
pub mod Credit
pub mod Fair
pub mod Run
