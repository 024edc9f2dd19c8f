-- ===== src/Core.antt =====
-- The messages of the server: include/coroute/core and src/core.
pub mod Request
pub mod Response
