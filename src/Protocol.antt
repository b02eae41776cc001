-- ===== src/Protocol.antt =====
-- crates/cadder-ipc: the data that the client, the shim and the daemon exchange.
pub mod State
pub mod Snapshot
pub mod Identifiers
pub mod Version
pub mod ErrorKind
pub mod Errors
pub mod Operations
pub mod Handshake
pub mod Wire
pub mod Logs
pub mod Messages
