-- ===== src/Http/Filters.antt =====
-- The HTTP filters of a route: which they are, and what they decide
-- (orion-lib/src/listeners/http_connection_manager.rs).
pub mod Defs
pub mod Loop
pub mod Table
pub mod Ending
mod Tests
