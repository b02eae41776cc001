-- ===== src/Examples.antt =====
-- Concrete data for the examples: registrations of a project, an environment without faults, and a
-- daemon over the mock runtime.
pub mod Mutations
pub mod Transactions
pub mod Fences
pub mod Maps
pub mod Configuration
pub mod Logs
pub mod Connections
pub mod Commands
pub mod Processes
pub mod Wire
pub mod Sessions
pub mod Supervisions
pub mod Frames
pub mod Peers
pub mod Operators
pub mod Servers
pub mod Executions
use cadder.Base.{ℕ, String, Bool, true, false, Option, none, some, List, [], ◌∷◌}
use cadder.Caddy.Coordinator.{PreparedRegistration, new_coordinator}
use cadder.Caddy.Externals.{Externals}
use cadder.Daemon.{DaemonState, Env}
use cadder.Daemon.Transaction.{Schedule}
use cadder.Fence.{initial_epoch}
use cadder.LogStore.{default_store}
use cadder.Protocol.Logs.{
  LogSeverity, LogAttributionKind, LogEntryKind, LogEntry, entrypoint_stream, domain_stream,
}
use cadder.Protocol.State.{ActivationState, RegisteredDomain, EntrypointRegistration}
use cadder.Runtime.Mock.{MockState}

abbrev pub externals : Externals
externals = record {
  domain_to_ascii = λ s. some s;
  to_vec_pretty = λ v. 123 ∷ 125 ∷ [];
  sha256_hex = λ bytes. "hash";
  redact = λ s. s;
}

abbrev pub prepared : EntrypointRegistration → PreparedRegistration
prepared r = record { registration = r; routes = []; diagnostics = [] }

abbrev pub env : Env
env = record {
  externals = externals;
  prepare = prepared;
  prepared_at = 10;
  now = 11;
  attempted_at = 12;
  reloaded_at = 13;
  logged_at = 14;
  log_fault = none;
  restore_fault = none;
  persist_fault = none;
}

abbrev pub calm : Schedule
calm = record { arriving = []; preparing = []; composing = []; applying = []; undoing = [] }

abbrev pub domain : String → ActivationState → RegisteredDomain
domain name state = record {
  name = record { raw = name; canonical = name };
  activation_state = state;
  upstream = none;
  log_stream = domain_stream name;
}

abbrev pub registration : String → String → String → ActivationState → EntrypointRegistration
registration id session name state = record {
  registration_id = id;
  entrypoint_instance = record {
    instance_id = id;
    started_at_utc = 1;
    shim_session_nonce = session;
  };
  source_working_directory = record { raw = id; canonical = none };
  source_config_path = record { raw = "Caddyfile"; canonical = none };
  registered_domains = domain name ActivationState.active ∷ [];
  activation_state = state;
  owner_process = record {
    process_id = 42;
    process_start_time_utc = 1;
    shim_session_nonce = session;
    executable_path = none;
  };
  log_stream = entrypoint_stream id;
  shim_run = none;
  created_at_utc = 1;
  last_heartbeat_utc = 1;
}

abbrev pub shop : EntrypointRegistration
shop = registration "shop" "one" "shop.localhost" ActivationState.active

-- It claims the shop's domain.
abbrev pub rival : EntrypointRegistration
rival = registration "rival" "two" "shop.localhost" ActivationState.active

abbrev pub idle_machine : MockState
idle_machine = record { effective = none; running = false; applied_config_bytes = 0; faults = [] }

abbrev pub fresh : DaemonState MockState
fresh = record {
  registrations = [];
  coordinator = new_coordinator;
  runtime = idle_machine;
  logs = default_store;
  database = none;
  shutdown = record { requested = false; started_at = none };
  lifecycle = initial_epoch;
}

abbrev pub line : String → LogEntry
line text = record {
  sequence_number = 0;
  timestamp_utc = 5;
  severity = LogSeverity.info;
  stream = entrypoint_stream "shop";
  attribution_kind = LogAttributionKind.entrypoint;
  entry_kind = LogEntryKind.normal;
  raw_message = text;
  domain_key = none;
  source_registration_id = some "shop";
  source_instance_id = none;
  operation = none;
}
