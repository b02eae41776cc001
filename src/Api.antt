-- ===== src/Api.antt =====
-- crates/cadder-api: what a client makes of the daemon's answers.
pub mod View
pub mod Error
pub mod Service
