-- ===== src/Http/Preflight.antt =====
-- What is refused, and what is stripped, before a request goes upstream.
pub mod Defs
pub mod Stripped
