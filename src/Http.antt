-- ===== src/Http.antt =====
-- apps/api/src/http: what a request passes before a route sees it.
pub mod Body
pub mod Selection
pub mod Validation
