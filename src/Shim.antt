-- ===== src/Shim.antt =====
-- The `caddy` command that projects call in place of Caddy: crates/cadder-shim/src/.
pub mod CommandPolicy
pub mod Delegation
