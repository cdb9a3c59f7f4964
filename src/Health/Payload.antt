-- ===== src/Health/Payload.antt =====
-- The TCP checker's match of the payloads that it expects.
pub mod Defs
pub mod Places
pub mod Loop
mod Tests
