-- ===== src/Daemon/Deadlines.antt =====
-- The operations of crates/cadder-daemon/src/state/shutdown.rs that have a deadline, over the process
-- runtime. An instant is a number of milliseconds; work is the time that a future takes.
pub mod Rest
pub mod Times
use cadder.Base.{
  ℕ, ◌+◌, String, Bool, true, false, Option, none, some, Result, ok, err, leb, max, if◌then◌else◌,
}
use cadder.Daemon.{DaemonState}
use cadder.Daemon.Closing.{finish_shutdown}
use cadder.Protocol.Messages.{BasicResponse}
use cadder.Runtime.Process.Stop.{RuntimeStopOutcome, stop_until, force_stop}
use cadder.Runtime.Process.World.{ProcessState, Process}

-- `timeout_at`: when it returns, and whether the future was ready by the deadline.
pub record Timed : Type 0 where
  pub at : ℕ
  pub ready : Bool

unfoldable pub timeout_at : (deadline now work : ℕ) → Timed
timeout_at deadline now work =
    if leb (now + work) deadline
    then record { at = now + work; ready = true }
    else record { at = max now deadline; ready = false }

abbrev pub Daemon : Type 0
Daemon = DaemonState ProcessState

abbrev pub machine : Daemon → Process
machine d = record { runtime = d.runtime; logs = d.logs }

abbrev pub with_machine : Daemon → Process → Daemon
with_machine d m = record d { runtime = m.runtime; logs = m.logs }

pub record ShutdownPreparation : Type 0 where
  pub response : BasicResponse
  pub runtime_quiescent : Bool

abbrev shutdown_failure : String → ShutdownPreparation
shutdown_failure message = record {
  response = record { request_id = "shutdown"; accepted = false; message = message };
  runtime_quiescent = false;
}

-- How long the operation, the coordinator and the stop take. The stop is awaited without a deadline
-- around it: it spawns a helper before the waits that have one.
pub record Preparing : Type 0 where
  pub operation_work : ℕ
  pub coordinator_work : ℕ
  pub stop_work : ℕ

abbrev pub Prepared : Type 0
Prepared = ℕ × Daemon × ShutdownPreparation

after_stop : ℕ → Daemon → Process × RuntimeStopOutcome → Prepared
unfolding finish_shutdown
after_stop at d (m, o) =
    let (d', response) = finish_shutdown o.result (with_machine d m) in
    (at, d', record { response = response; runtime_quiescent = o.quiescent })

unfoldable pub prepare_shutdown_until : (deadline now : ℕ) → Preparing → Daemon → Prepared
unfolding timeout_at after_stop stop_until
prepare_shutdown_until deadline now p d =
    let operation = timeout_at deadline now p.operation_work in
    let coordinator = timeout_at deadline operation.at p.coordinator_work in
    if operation.ready
    then (if coordinator.ready
        then after_stop (coordinator.at + p.stop_work) d (stop_until (machine d))
        else (
          coordinator.at,
          d,
          shutdown_failure
              "Daemon shutdown could not inspect runtime ownership before its deadline.",
        ))
    else (
      operation.at,
      d,
      shutdown_failure
          "Daemon shutdown could not acquire the runtime operation before its deadline.",
    )

unfoldable pub force_stop_runtime : Daemon → Daemon × Result (Unit {0}) String
unfolding force_stop
force_stop_runtime d = let (m, result) = force_stop (machine d) in (with_machine d m, result)

-- What the database answers, if it has closed by the deadline.
unfoldable pub shutdown_storage_until :
    (deadline now work : ℕ) → Result (Unit {0}) String → Daemon → ℕ × Result (Unit {0}) String
unfolding timeout_at
shutdown_storage_until deadline now work closed d =
    let close = timeout_at deadline now work in
    elim d.database [
      | none ↦ (now, ok tt)
      | some tables ↦ (
        close.at,
        (if close.ready then closed else err "SQLite database did not close before its deadline"),
      )
    ]
