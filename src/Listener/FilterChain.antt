-- ===== src/Listener/FilterChain.antt =====
-- Filter chain matching: orion-configuration/src/config/listener.rs and `select_filterchain` of
-- orion-lib/src/listeners/listener.rs.
pub mod Match
pub mod Select
pub mod Survivors
pub mod Order
pub mod Places
pub mod Outcome
