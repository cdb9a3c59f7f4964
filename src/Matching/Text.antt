-- ===== src/Matching/Text.antt =====
-- `StringMatcher` of orion-configuration/src/config/core.rs.
pub mod Defs
pub mod Parts
pub mod Loop
pub mod Meaning
pub mod Boundaries
