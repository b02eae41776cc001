-- ===== src/Runtime/Process.antt =====
-- crates/cadder-daemon/src/runtime/process.rs and its receipts: the runtime that owns a Caddy process.
pub mod World
pub mod Holding
pub mod Files
pub mod Stop
pub mod Start
pub mod Receipts
