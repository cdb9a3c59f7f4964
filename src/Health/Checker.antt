-- ===== src/Health/Checker.antt =====
-- The loop that checks one endpoint: orion-lib/src/clusters/health/checkers.
pub mod Defs
pub mod Protocols
pub mod Reports
pub mod Waiting
mod Tests
