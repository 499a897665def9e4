-- ===== src/Api.antt =====
-- The admin API, src/api.
pub mod Proxy
pub mod Bindings
pub mod Acl
pub mod Auth
pub mod Router
