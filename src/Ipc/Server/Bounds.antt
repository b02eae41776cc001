-- ===== src/Ipc/Server/Bounds.antt =====
-- How long a shutdown takes.
use cadder.Base.{ℕ, ◌+◌, ◌≤◌, String, Option, max, arith}
use cadder.Daemon.Deadlines.{
  Daemon, timeout_at, ShutdownPreparation, prepare_shutdown_until, force_stop_runtime,
}
use cadder.Daemon.Deadlines.Times.{timeout_at-le, prepare-le, storage-le}
use cadder.Daemon.Shutdown.{begin_operation_drain}
use cadder.Ipc.Server.{
  IpcLimits, ShutdownTimeline, Closure, timeline, accept_deadline, handler_deadline,
  graceful_deadline, runtime_deadline, storage_deadline, abort_handlers, drain_handlers,
  close_storage, force_runtime, stop_runtime, shut_down,
}

-- The handlers have time until their clients' deadline at least, and their own at most.
pub graceful_bounds :
    (t : ShutdownTimeline)
    → (accept_deadline t ≤ graceful_deadline t) × (graceful_deadline t ≤ handler_deadline t)
unfolding graceful_deadline handler_deadline
graceful_bounds t = omega arith

module _ (c : Closure) (t : ShutdownTimeline) where
  -- The latest end of the drain that began at `now`.
  abbrev drained_by : ℕ → ℕ
  drained_by now = max now (handler_deadline t) + c.log_work

  abort_handlers-le : (now : ℕ) (d : Daemon) → (abort_handlers c t now d).0 ≤ drained_by now
  unfolding abort_handlers
  abort_handlers-le now d = ground (arith, timeout_at-le (handler_deadline t) now c.abort_work)

  drain_handlers-le : (now : ℕ) (d : Daemon) → (drain_handlers c t now d).0 ≤ drained_by now
  unfolding drain_handlers
  drain_handlers-le now d =
      let drain = timeout_at (graceful_deadline t) now c.drain_work in
      ground (
        arith,
        timeout_at-le (graceful_deadline t) now c.drain_work,
        graceful_bounds t,
        abort_handlers-le drain.at (c.handling d),
      )

  -- The latest end of what begins with the storage.
  abbrev stored_by : ℕ → ℕ
  stored_by now =
      max now (handler_deadline t + t.limits.shutdown_runtime + t.limits.shutdown_storage)

  module _ (handler server : Option String) (p : ShutdownPreparation) where
    close_storage-le :
        (now : ℕ) (d : Daemon) → (close_storage c t handler server p now d).ended_at ≤ stored_by now
    unfolding close_storage storage_deadline
    close_storage-le now d =
        ground (arith, storage-le (storage_deadline t now) now c.close_work c.closed d)

    force_runtime-le :
        (now : ℕ) (d : Daemon)
        → (force_runtime c t handler server p now d).ended_at
          ≤ stored_by (now + t.limits.shutdown_runtime)
    unfolding force_runtime
    force_runtime-le now d =
        let force = timeout_at (now + t.limits.shutdown_runtime) now c.force_work in
        let (forced, result) = force_stop_runtime d in
        ground (
          arith,
          timeout_at-le (now + t.limits.shutdown_runtime) now c.force_work,
          close_storage-le force.at forced,
        )

  stop_runtime-le :
      (server : Option String) (now : ℕ) (d : Daemon) (handler : Option String)
      → (stop_runtime c t server (now, d, handler)).ended_at
        ≤ max now (handler_deadline t)
          + t.limits.shutdown_runtime
          + c.preparing.stop_work
          + max t.limits.shutdown_runtime t.limits.shutdown_storage
  unfolding stop_runtime runtime_deadline
  stop_runtime-le server now d handler =
      let (at, d', p) = prepare_shutdown_until (runtime_deadline t now) now c.preparing d in
      ground (
        arith,
        prepare-le (runtime_deadline t now) now c.preparing d,
        close_storage-le handler server p at d',
        force_runtime-le handler server p at d',
      )

-- A shutdown ends within the budgets: those of the handlers, or the instant at which the loop was left
-- if that is later, then that of the runtime, and then the greater of those of a forced stop and of the
-- storage; what comes on top is the stop of the runtime, which is awaited without a deadline around
-- it, and the log line of late handlers.
pub shut_down-le :
    (c : Closure) (limits : IpcLimits) (server : Option String) (now : ℕ) (d : Daemon)
    → (shut_down c limits server now d).ended_at
      ≤ max now (handler_deadline (timeline limits now d))
        + limits.shutdown_runtime
        + c.preparing.stop_work
        + max limits.shutdown_runtime limits.shutdown_storage
        + c.log_work
unfolding shut_down
shut_down-le c limits server now d =
    let t = timeline limits now d in
    let (at, d', handler) = drain_handlers c t now (begin_operation_drain d) in
    omega (
      arith,
      drain_handlers-le c t now (begin_operation_drain d),
      stop_runtime-le c t server at d' handler,
    )
