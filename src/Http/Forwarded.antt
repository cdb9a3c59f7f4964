-- ===== src/Http/Forwarded.antt =====
-- The headers that say where a request comes from.
pub mod Defs
pub mod Process
pub mod Addresses
pub mod Trusted
pub mod Chain
pub mod Writes
pub mod Edge
