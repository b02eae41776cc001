-- ===== src/Lib.antt =====
-- Cadder lets many projects share one Caddy server. A shim in each project registers an entrypoint
-- with the daemon; the daemon owns the registrations, composes one effective configuration from them,
-- hands it to the Caddy runtime, and stores the desired activation of each project. These modules
-- model the daemon's core and the shim's command policy, and prove what they keep.
--
-- Parts, files and sources (paths from the repository's root):
-- - Base: tests, results, lists over the native numbers, and sorted maps as association lists.
-- - Protocol: crates/cadder-ipc/src/. Records and data types have the fields and constructors of the
--   source; an instant is a number of ticks. `Identifiers`, `Version`, `ErrorKind`, `Errors`,
--   `Operations`, `Wire` and `Handshake` are the wire protocol, of what `serde_json` reads and writes;
--   `Snapshot` is what a query of the state answers.
-- - Fence: crates/cadder-daemon/src/operation_fence.rs. `issue`, `begin_drain`, `try_revoke`,
--   `complete`, `commit`, `begin_final_commit`, `commit_final`, and the guard's `guard_commit` and
--   `drop_guard`. A method runs under its locks and is one step; `Fence.Histories` interleaves them.
-- - Registrations: the tests and edits of crates/cadder-daemon/src/state/registrations.rs, with the
--   ownership of domains and the merge of heartbeats.
-- - Database: `persist_desired_state` and `restore_desired_state` of
--   crates/cadder-daemon/src/database.rs. The tables are lists of rows. A fault of `Database::call`
--   is an argument, which says whether the rows were committed before it was reported.
-- - Caddy: crates/cadder-daemon/src/caddy/configuration.rs. `Config` composes the configuration,
--   `Conflicts` finds domains with two owners, `Coordinator` decides what is to be applied.
-- - LogStore: crates/cadder-daemon/src/logs.rs and the log table of database.rs. The eviction loop has
--   the queue's length as fuel, and each round takes an entry out, so that it is enough.
-- - Runtime: crates/cadder-daemon/src/runtime.rs as an interface of receipts with the promises that
--   the daemon relies on, and crates/cadder-daemon/src/runtime/mock_runtime.rs as its implementation.
--   `Runtime.Process` is runtime/process.rs with process/receipts.rs, process/io.rs, runtime_file.rs
--   and the forced end of process_tree.rs: each call of the system or of Caddy takes an answer.
-- - Daemon: crates/cadder-daemon/src/state.rs and state/. `Transaction` is
--   `execute_registration_transaction`, with the runtime's part in `Transaction.Transition`,
--   `Mutations` are `register`, `unregister`,
--   `set_entrypoint_enabled` and `set_domain_enabled`, with the candidates they make in `Candidates`,
--   `Interleaving` is `heartbeat` and what other
--   tasks may do while a mutation waits, `Closing` is the shutdown and the cleanup after a
--   connection, `Deadlines` the shutdown before a deadline over the process runtime,
--   `Queries` the log query, `Snapshots` the query of the state, and `Histories` composes the mutations.
-- - Ipc: crates/cadder-daemon/src/ipc/. `Ownership` is `ConnectionOwnership` of authorization.rs, with
--   the mutations of a connection against its cleanup; `Handshake` has both ends of handshake.rs;
--   `Client` is a request of client.rs and client/protocol.rs over a session, with the errors of
--   ipc_client_error.rs; `Codec` and `Writing` make and write a frame (ipc_codec.rs, framing.rs), with
--   the frame's length as the loop's fuel, and `Framing` the envelope of a response; `Supervision` is
--   `supervise_owned_mutation_request` of supervision.rs, and `Control` has the errors of control.rs
--   that it sends; `Access` is the policy of ipc_security.rs and
--   `Connection` the connection's loop of connection.rs, from the authentication of its peer on.
--   `Supervision.Unary` routes a request to its supervisor and supervises a handler, `Execution` is
--   what the worker of a mutation executes, and `Server` is `DaemonServer::run_until` of ipc.rs, with
--   its limits and deadlines in milliseconds; its loop is in `Server.Accepting`. `Dispatch` is
--   dispatch.rs for a request without a fence.
-- - Api: crates/cadder-api/src/. `View` has the views and the resolution of a domain, `Error` the errors
--   of an operator, and `Service` the operations; the wait for a daemon's stop has its 100 attempts as
--   fuel, as the source has.
-- - Shim: crates/cadder-shim/src/command_policy.rs and `main` of crates/cadder-shim/src/main.rs, up to
--   what it then runs; what `CaddyBackendMode::from_env` returns, whether a session connects, and
--   whether the paths resolve are arguments.
-- - Examples: the theorems at concrete data over the mock runtime.
--
-- How the parts interact. A mutation waits for its turn, makes a candidate of the registrations and
-- the coordinator, lets the coordinator decide on the runtime's transition, runs it under the fence,
-- and publishes: it merges the heartbeats that arrived, takes the final commit, accepts the receipt,
-- stores the desired state, and writes the state. A step that fails undoes the transition, but not the
-- rows that the database committed before it reported a fault. The model passes the state explicitly. `config_operation` admits one mutation at a time, and so other tasks
-- are the events of `Interleaving` at each point where the mutation waits: heartbeats, a revocation
-- by the operation's deadline, a drain, a request to shut down, and log lines. Locks that are held
-- over several statements make these one step.
--
-- Parameters. `idna`, the JSON printer, the hash and the redaction are functions in `Externals`; the
-- adapter, which runs Caddy, is `Env.prepare`; the clock's readings and the faults of storage are
-- values in `Env`. What a call of the operating system, of a connection or of `serde_json` answers is
-- an argument. Theorems hold for all of them.
--
-- Not modelled: the readers of Caddy's
-- output, the resolution and trust of Caddy's binary, sockets and the identities of their peers,
-- the decoder of frames, the paths and files of the daemon, the start of the daemon, the command
-- line, the terminal interface and the shim's session. They are mostly I/O; what they decide is
-- outside this development.
pub mod Base
pub mod Protocol
pub mod Fence
pub mod Registrations
pub mod Database
pub mod Caddy
pub mod LogStore
pub mod Runtime
pub mod Daemon
pub mod Ipc
pub mod Shim
pub mod Api
pub mod Examples
