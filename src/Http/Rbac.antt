-- ===== src/Http/Rbac.antt =====
-- HTTP RBAC.
pub mod Defs
pub mod First
mod Tests
