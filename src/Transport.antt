-- ===== src/Transport.antt =====
-- What is read from a connection before its requests (orion-lib/src/transport).
pub mod Stream
pub mod Tlv
pub mod ProxyProtocol
pub mod Rewind
mod Tests
