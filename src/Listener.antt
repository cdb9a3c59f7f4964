-- ===== src/Listener.antt =====
-- Which filter chain serves a connection (orion-lib/src/listeners).
pub mod FilterChain
pub mod Rbac
mod Tests
