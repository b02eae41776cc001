-- ===== src/Daemon.antt =====
-- crates/cadder-daemon/src/state.rs and state/: the daemon's state, and the environment of a
-- mutation. Locks are held for whole steps of the model, and `config_operation` for a whole
-- mutation, so the only other steps within one are those of `Interleaving`.
pub mod Shutdown
pub mod Interleaving
pub mod Transaction
pub mod Responses
pub mod Candidates
pub mod Mutations
pub mod Histories
pub mod Closing
pub mod Queries
pub mod Deadlines
pub mod Snapshots
use cadder.Base.{ℕ, String, Bool, true, false, Option, none, some, List, []}
use cadder.Caddy.Coordinator.{Coordinator, PreparedRegistration, new_coordinator}
use cadder.Caddy.Externals.{Externals}
use cadder.Database.{StorageFault, Tables}
use cadder.Fence.{LifecycleEpoch, OperationFence, initial_epoch}
use cadder.LogStore.{CaddyLogStore, default_store}
use cadder.Protocol.State.{EntrypointRegistration}
use cadder.Registrations.{Registrations}
use cadder.Runtime.{Runtime, LogEnv}

-- `started_at` is set once.
pub record ShutdownSignal : Type 0 where
  pub requested : Bool
  pub started_at : Option ℕ

pub record DaemonState (S : Type 0) : Type 0 where
  pub registrations : Registrations
  pub coordinator : Coordinator
  pub runtime : S
  pub logs : CaddyLogStore
  pub database : Option Tables
  pub shutdown : ShutdownSignal
  pub lifecycle : LifecycleEpoch

-- A mutation under way: the daemon, and the mutation's fence.
pub record Task (S : Type 0) : Type 0 where
  pub state : DaemonState S
  pub fence : OperationFence

-- The instants that a mutation reads off the clock, the adapter's answer, and the faults of storage.
pub record Env : Type 0 where
  pub externals : Externals
  pub prepare : EntrypointRegistration → PreparedRegistration
  pub prepared_at : ℕ
  pub now : ℕ
  pub attempted_at : ℕ
  pub reloaded_at : ℕ
  pub logged_at : ℕ
  pub log_fault : Option StorageFault
  pub restore_fault : Option String
  pub persist_fault : Option StorageFault

abbrev pub log_env : Env → LogEnv
log_env x = record { redact = x.externals.redact; now = x.logged_at; fault = x.log_fault }

-- `DaemonState::new`, and the same with a database.
unfoldable pub new_state : {S : Type 0} → S → Option Tables → CaddyLogStore → DaemonState S
new_state runtime database logs = record {
  registrations = [];
  coordinator = new_coordinator;
  runtime = runtime;
  logs = logs;
  database = database;
  shutdown = record { requested = false; started_at = none };
  lifecycle = initial_epoch;
}
