-- ===== src/Transport/Rewind.antt =====
-- A stream whose head can be read twice, and what looks at the head of a TLS connection with it.
pub mod Defs
pub mod Inspector
pub mod Replay
mod Tests
