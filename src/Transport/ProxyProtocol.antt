-- ===== src/Transport/ProxyProtocol.antt =====
-- The proxy protocol on accepted connections (orion-lib/src/transport/proxy_protocol.rs).
pub mod Defs
pub mod Header
pub mod Metadata
pub mod Reading
pub mod Conserving
