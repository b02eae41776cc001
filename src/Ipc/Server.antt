-- ===== src/Ipc/Server.antt =====
-- `DaemonServer::run_until` of crates/cadder-daemon/src/ipc.rs from the end of its loop on: the
-- handlers are drained, the runtime is stopped, by force if need be, and the storage is closed. The
-- loop is in `Accepting`. An instant is a number of milliseconds.
pub mod Limits
pub mod Accepting
pub mod Quiescence
pub mod Bounds
use cadder.Base.{
  ℕ, ◌+◌, ◌-◌, ◌/◌, String, Bool, true, false, not, Option, none, some, Result, ok, err, min,
  unwrap_or, if◌then◌else◌,
}
use cadder.Daemon.{DaemonState}
use cadder.Daemon.Deadlines.{
  Daemon, Timed, timeout_at, ShutdownPreparation, Preparing, Prepared, prepare_shutdown_until,
  force_stop_runtime, shutdown_storage_until,
}
use cadder.Daemon.Shutdown.{begin_operation_drain}
use cadder.LogStore.{append}
use cadder.Protocol.Logs.{LogSeverity, LogAttributionKind, runtime_control_stream}
use cadder.Protocol.Operations.{OperationDeadlineClass}
use cadder.Runtime.{LogEnv}
pub use cadder.Ipc.Server.Limits.{IpcLimits, default_limits, ShutdownTimeline, timeline}
unfoldable pub use cadder.Ipc.Server.Limits.{
  operation_deadline, accept_deadline, handler_deadline, graceful_deadline, runtime_deadline,
  storage_deadline,
}

-- How the server ended, other than well. A text is that of the error within.
pub data ServerError : Type 0 where
  force_late : ServerError
  force_failed : String → ServerError
  runtime_refused : String → ServerError
  storage_failed : String → ServerError
  handlers_failed : String → ServerError
  accept_failed : String → ServerError

-- What the shutdown meets: the time that each part takes, what the handlers do to the daemon until
-- they are drained or aborted, what a forced stop that is late has done, and the answers.
pub record Closure : Type 0 where
  pub drain_work : ℕ
  pub drained : Result (Unit {0}) String
  pub handling : Daemon → Daemon
  pub abort_work : ℕ
  pub aborted : Result (Unit {0}) String
  pub aborting : Daemon → Daemon
  pub log_work : ℕ
  pub log : LogEnv
  pub preparing : Preparing
  pub force_work : ℕ
  pub interrupted : Daemon → Daemon
  pub close_work : ℕ
  pub closed : Result (Unit {0}) String

pub record ServerEnd : Type 0 where
  pub ended_at : ℕ
  pub state : Daemon
  pub result : Result (Unit {0}) ServerError

abbrev failure : Result (Unit {0}) String → Option String
failure (ok _) = none
failure (err e) = some e

abbrev pub Drained : Type 0
Drained = ℕ × Daemon × Option String

module _ (c : Closure) where
  abbrev grace_line : Daemon → Daemon
  unfolding append
  grace_line d = record d {
    logs =
        append c.log.redact c.log.now c.log.fault runtime_control_stream LogSeverity.error
          "An owned mutation exceeded the shutdown grace; daemon shutdown continues."
          LogAttributionKind.runtime_control (some "shutdown-mutation-timeout") d.logs;
  }

  -- The handlers are cancelled and aborted, and have until the handlers' deadline.
  abort_handlers : ShutdownTimeline → ℕ → Daemon → Drained
  unfolding timeout_at handler_deadline grace_line
  abort_handlers t now d =
      let abort = timeout_at (handler_deadline t) now c.abort_work in
      let d' = c.aborting d in
      if abort.ready then (abort.at, d', failure c.aborted) else (
        abort.at + c.log_work,
        grace_line d',
        some "IPC handlers did not finish within the shutdown grace",
      )

  drain_handlers : ShutdownTimeline → ℕ → Daemon → Drained
  unfolding timeout_at graceful_deadline abort_handlers
  drain_handlers t now d =
      let drain = timeout_at (graceful_deadline t) now c.drain_work in
      let d' = c.handling d in
      if drain.ready then (drain.at, d', failure c.drained) else abort_handlers t drain.at d'

  -- The first of the errors that the server reports.
  abbrev verdict :
      ShutdownPreparation
      → Result (Unit {0}) String
      → Option String
      → Option String
      → Result (Unit {0}) ServerError
  verdict p storage handler server =
      if not p.response.accepted
      then err (ServerError.runtime_refused p.response.message)
      else elim storage [
        | err e ↦ err (ServerError.storage_failed e)
        | ok _ ↦ elim handler [
          | some e ↦ err (ServerError.handlers_failed e)
          | none ↦ elim server [ some e ↦ err (ServerError.accept_failed e) | none ↦ ok tt ]
        ]
      ]

  close_storage :
      ShutdownTimeline
      → Option String
      → Option String
      → ShutdownPreparation
      → ℕ
      → Daemon
      → ServerEnd
  unfolding storage_deadline shutdown_storage_until
  close_storage t handler server p now d =
      let (at, storage) =
        shutdown_storage_until (storage_deadline t now) now c.close_work c.closed d in
      record { ended_at = at; state = d; result = verdict p storage handler server }

  -- A forced stop has `timeout`'s budget from now on; one that is late is dropped where it is.
  force_runtime :
      ShutdownTimeline
      → Option String
      → Option String
      → ShutdownPreparation
      → ℕ
      → Daemon
      → ServerEnd
  unfolding timeout_at force_stop_runtime close_storage
  force_runtime t handler server p now d =
      let force = timeout_at (now + t.limits.shutdown_runtime) now c.force_work in
      let (forced, result) = force_stop_runtime d in
      if force.ready
      then elim result [
        | err e ↦ record {
          ended_at = force.at;
          state = forced;
          result = err (ServerError.force_failed e);
        }
        | ok _ ↦ close_storage t handler server p force.at forced
      ]
      else record {
        ended_at = force.at;
        state = c.interrupted d;
        result = err ServerError.force_late;
      }

  stop_runtime : ShutdownTimeline → Option String → Drained → ServerEnd
  unfolding runtime_deadline prepare_shutdown_until close_storage force_runtime
  stop_runtime t server (now, d, handler) =
      let (at, d', p) = prepare_shutdown_until (runtime_deadline t now) now c.preparing d in
      if p.runtime_quiescent
      then close_storage t handler server p at d'
      else force_runtime t handler server p at d'

  -- From the end of the loop on, which is at `now`, with the failure that ended it.
  unfoldable pub shut_down : IpcLimits → Option String → ℕ → Daemon → ServerEnd
  unfolding begin_operation_drain drain_handlers stop_runtime
  shut_down limits server now d =
      let t = timeline limits now d in
      stop_runtime t server (drain_handlers t now (begin_operation_drain d))
