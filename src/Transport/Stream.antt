-- ===== src/Transport/Stream.antt =====
-- The byte stream of a connection, and the laws of reading it.
pub mod Defs
pub mod Laws
