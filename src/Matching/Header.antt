-- ===== src/Matching/Header.antt =====
-- `HeaderMatcher` of orion-configuration/src/config/network_filters/http_connection_manager/header_matcher.rs.
pub mod Defs
pub mod Meaning
