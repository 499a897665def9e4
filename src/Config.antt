-- ===== src/Config.antt =====
-- src/config.rs: address pools, networks and the egress filter.
pub mod Pool
pub mod Net
pub mod Egress
pub mod Settings
