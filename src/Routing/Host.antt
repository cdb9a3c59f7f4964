-- ===== src/Routing/Host.antt =====
-- `MatchHost` and `select_virtual_host`.
pub mod Defs
pub mod Print
pub mod Best
pub mod Fold
