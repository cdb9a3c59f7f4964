-- ===== src/Http.antt =====
-- What the HTTP connection manager does to the headers of a request on its way
-- (orion-lib/src/listeners/http_connection_manager/http_modifiers.rs).
pub mod Headers
pub mod Filters
pub mod Forwarded
pub mod Mutations
pub mod Preflight
pub mod Rbac
mod Concrete
mod Tests
