-- ===== src/Matching.antt =====
-- Matchers on the text and the headers of requests (orion-configuration/src/config).
pub mod Text
pub mod Header
mod Tests
