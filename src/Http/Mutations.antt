-- ===== src/Http/Mutations.antt =====
-- The mutations of headers that a configuration asks for.
pub mod Defs
pub mod Names
mod Tests
