-- ===== src/Ipc.antt =====
-- The connections between a client and the daemon: crates/cadder-daemon/src/ipc/ with
-- ipc_client_error.rs.
pub mod Ownership
pub mod ClientError
pub mod Client
pub mod Handshake
pub mod Codec
pub mod Writing
pub mod Framing
pub mod Control
pub mod Supervision
pub mod Access
pub mod Connection
pub mod Server
pub mod Execution
pub mod Dispatch
