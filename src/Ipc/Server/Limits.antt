-- ===== src/Ipc/Server/Limits.antt =====
-- `IpcLimits` and `ShutdownTimeline` of crates/cadder-daemon/src/ipc.rs: the limits of the server and
-- the deadlines that they give. An instant is a number of milliseconds.
use cadder.Base.{ℕ, ◌+◌, ◌-◌, ◌/◌, min, unwrap_or}
use cadder.Daemon.Deadlines.{Daemon}
use cadder.Protocol.Operations.{OperationDeadlineClass}

pub record IpcLimits : Type 0 where
  pub max_connections : ℕ
  pub first_frame_byte : ℕ
  pub frame_completion : ℕ
  pub write_no_progress : ℕ
  pub ordinary_operation : ℕ
  pub reload_operation : ℕ
  pub shutdown_operation : ℕ
  pub shutdown_accept : ℕ
  pub shutdown_handler_grace : ℕ
  pub shutdown_connection_abort_join : ℕ
  pub shutdown_runtime : ℕ
  pub shutdown_storage : ℕ

abbrev pub default_limits : IpcLimits
default_limits = record {
  max_connections = 64;
  first_frame_byte = 5000;
  frame_completion = 30000;
  write_no_progress = 5000;
  ordinary_operation = 30000;
  reload_operation = 120000;
  shutdown_operation = 30000;
  shutdown_accept = 2000;
  shutdown_handler_grace = 8000;
  shutdown_connection_abort_join = 1000;
  shutdown_runtime = 10000;
  shutdown_storage = 5000;
}

abbrev duration : IpcLimits → OperationDeadlineClass → ℕ
duration limits OperationDeadlineClass.ordinary = limits.ordinary_operation
duration limits OperationDeadlineClass.reload = limits.reload_operation
duration limits OperationDeadlineClass.shutdown = limits.shutdown_operation

unfoldable pub operation_deadline : ℕ → IpcLimits → OperationDeadlineClass → ℕ
operation_deadline now limits class = now + duration limits class

pub record ShutdownTimeline : Type 0 where
  pub started_at : ℕ
  pub limits : IpcLimits

unfoldable pub accept_deadline : ShutdownTimeline → ℕ
accept_deadline t = t.started_at + t.limits.shutdown_accept

unfoldable pub handler_deadline : ShutdownTimeline → ℕ
unfolding accept_deadline
handler_deadline t = accept_deadline t + t.limits.shutdown_handler_grace

-- An `Instant` less a duration; `Bounds` shows that it does not fall below the start.
unfoldable pub graceful_deadline : ShutdownTimeline → ℕ
unfolding handler_deadline
graceful_deadline t =
    handler_deadline t
    - min t.limits.shutdown_connection_abort_join (t.limits.shutdown_handler_grace / 2)

abbrev phase_deadline : (phase_started_at absolute_deadline phase_budget : ℕ) → ℕ
phase_deadline started absolute budget = min (started + budget) absolute

unfoldable pub runtime_deadline : ShutdownTimeline → ℕ → ℕ
unfolding handler_deadline
runtime_deadline t started =
    phase_deadline started (handler_deadline t + t.limits.shutdown_runtime)
      t.limits.shutdown_runtime

unfoldable pub storage_deadline : ShutdownTimeline → ℕ → ℕ
unfolding handler_deadline
storage_deadline t started =
    phase_deadline started
      (handler_deadline t + t.limits.shutdown_runtime + t.limits.shutdown_storage)
      t.limits.shutdown_storage

abbrev pub timeline : IpcLimits → ℕ → Daemon → ShutdownTimeline
timeline limits now d = record { started_at = unwrap_or d.shutdown.started_at now; limits = limits }
