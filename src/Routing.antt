-- ===== src/Routing.antt =====
-- From a request to its route: virtual hosts and route matches
-- (orion-configuration/src/config/network_filters/http_connection_manager.rs and its route.rs).
pub mod Host
pub mod Route
mod Tests
