-- ===== src/Web.antt =====
-- tornado/web.py.
pub mod Handler
pub mod Signed
pub mod Routing
