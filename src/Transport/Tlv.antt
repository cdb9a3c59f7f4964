-- ===== src/Transport/Tlv.antt =====
-- The TLV listener filter (orion-lib/src/transport/tlv_listener_filter.rs).
pub mod Defs
pub mod Process
pub mod Total
pub mod Packet
