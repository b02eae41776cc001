-- ===== src/Caddy.antt =====
-- crates/cadder-daemon/src/caddy: the effective configuration of the real Caddy, and its
-- coordinator.
pub mod Externals
pub mod Domains
pub mod Json
pub mod Config
pub mod Conflicts
pub mod Coordinator
