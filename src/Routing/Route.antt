-- ===== src/Routing/Route.antt =====
-- `RouteMatch` and the rewrite of a matched path.
pub mod Defs
pub mod Path
pub mod Meaning
pub mod Specifier
pub mod NoPath
