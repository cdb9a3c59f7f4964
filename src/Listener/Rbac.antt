-- ===== src/Listener/Rbac.antt =====
-- Network RBAC: orion-configuration/src/config/network_filters/network_rbac.rs.
pub mod Defs
pub mod Meaning
