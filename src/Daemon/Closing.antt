-- ===== src/Daemon/Closing.antt =====
-- crates/cadder-daemon/src/state/shutdown.rs, and the cleanup of a connection that is gone
-- (`unregister_for_ipc_disconnect` of state/registrations.rs, and its loop in ipc/connection.rs).
-- The result of the runtime's `stop` is an argument, as the state that the runtime is then in.
pub mod Cleanup
use cadder.Base.{
  ℕ, String, ◌≡◌, refl, Bool, true, false, not, Option, none, some, List, [], ◌∷◌, Result, ok, err,
  if◌then◌else◌, arith,
}
use cadder.Base.Dict.{Dict}
use cadder.Daemon.{DaemonState, Task, Env}
use cadder.Daemon.Interleaving.{heartbeat}
use cadder.Daemon.Mutations.{
  register, unregister, unregister_fenced, set_entrypoint_enabled, set_domain_enabled,
  register_fenced, set_entrypoint_enabled_fenced, set_domain_enabled_fenced, with_fence,
}
use cadder.Daemon.Responses.{
  refused, accepted, register_refused, mutation_rejected, mutation_admission_message,
}
use cadder.Daemon.Shutdown.{begin_operation_drain, request_shutdown}
use cadder.Daemon.Transaction.{Schedule}
use cadder.Fence.{CommitRejection, LifecyclePhase, issue, begin_drain}
use cadder.LogStore.{CaddyLogStore, append}
use cadder.Protocol.Logs.{LogSeverity, LogAttributionKind, runtime_control_stream}
use cadder.Protocol.Messages.{
  HeartbeatEntrypointPayload, SetEntrypointEnabledPayload, SetDomainEnabledPayload, BasicResponse,
}
use cadder.Protocol.State.{EntrypointRegistration}
use cadder.Runtime.{Runtime}

module _ {S : Type 0} where
  unfoldable pub finish_shutdown :
      Result (Unit {0}) String → DaemonState S → DaemonState S × BasicResponse
  unfolding begin_operation_drain
  finish_shutdown (err e) d = (d, record { request_id = "shutdown"; accepted = false; message = e })
  finish_shutdown (ok _) d = (
    begin_operation_drain d,
    record { request_id = "shutdown"; accepted = true; message = "Daemon shutdown requested." },
  )

  -- `prepare_shutdown`, after the runtime's stop.
  unfoldable pub prepare_shutdown :
      S → Result (Unit {0}) String → DaemonState S → DaemonState S × BasicResponse
  unfolding finish_shutdown
  prepare_shutdown stopped result d = finish_shutdown result (record d { runtime = stopped })

  unfoldable pub shutdown :
      ℕ → S → Result (Unit {0}) String → DaemonState S → DaemonState S × BasicResponse
  unfolding prepare_shutdown request_shutdown
  shutdown now stopped result d =
      let (d', response) = prepare_shutdown stopped result d in
      let requested = request_shutdown now d' in
      if response.accepted then (requested, response) else (d', response)

module _ (R : Runtime) where
  cleanup_log :
      Env → Result BasicResponse CommitRejection → DaemonState R.State → DaemonState R.State
  unfolding append
  cleanup_log x result d =
      let logged : String → DaemonState R.State = λ message. record d {
        logs =
            append x.externals.redact x.logged_at x.log_fault runtime_control_stream
              LogSeverity.warn message LogAttributionKind.runtime_control
              (some "ipc-disconnect-cleanup") d.logs;
      } in
      elim result [
        | ok response ↦ (if response.accepted then d else logged response.message)
        | err e ↦ logged "Entrypoint cleanup was cancelled during daemon drain."
      ]

  unfoldable pub unregister_for_ipc_disconnect :
      Env → Schedule → String → String → DaemonState R.State → DaemonState R.State
  unfolding unregister_fenced issue cleanup_log
  unregister_for_ipc_disconnect x es id session d = elim (issue d.lifecycle) [
    | err e ↦ d
    | ok f ↦
        (let (t, result) = unregister_fenced R x es id session (record { state = d; fence = f }) in
          cleanup_log x result t.state)
  ]

  -- The cleanup's loop over the entries that it took.
  unfoldable pub cleanup_connection :
      Env → Schedule → Dict String → DaemonState R.State → DaemonState R.State
  unfolding unregister_for_ipc_disconnect
  cleanup_connection x es [] d = d
  cleanup_connection x es ((id, session) ∷ entries) d =
      cleanup_connection x es entries (unregister_for_ipc_disconnect x es id session d)

  with_fence-refused :
      {A : Type 0} (rejected : CommitRejection → A)
      (body : Task R.State → Task R.State × Result A CommitRejection) (d : DaemonState R.State)
      (e : CommitRejection)
      → issue d.lifecycle ≡ err e
      → with_fence R rejected body d ≡ (d, rejected e)
  with_fence-refused rejected body d e h = rw (h, with_fence) refl

  shutdown-issue :
      (now : ℕ) (stopped : R.State) (d : DaemonState R.State)
      → issue (shutdown now stopped (ok tt) d).0.lifecycle ≡ err CommitRejection.draining
  unfolding shutdown issue begin_drain
  shutdown-issue now stopped d = ground arith

  -- After a shutdown that was accepted every mutation and every heartbeat is refused and changes
  -- nothing, whatever the runtime's stop left behind.
  pub shutdown_refuses :
      (now : ℕ) (stopped : R.State) (d : DaemonState R.State) (x : Env) (es : Schedule)
      (r : EntrypointRegistration) (id session : String) (p : SetEntrypointEnabledPayload)
      (q : SetDomainEnabledPayload) (b : HeartbeatEntrypointPayload) (later : ℕ)
      → let d' = (shutdown now stopped (ok tt) d).0 in
        (register R x es r d'
          ≡ (d', register_refused (mutation_admission_message CommitRejection.draining)))
        × (unregister R x es id session d' ≡ (d', mutation_rejected CommitRejection.draining))
        × (set_entrypoint_enabled R x es p d' ≡ (d', mutation_rejected CommitRejection.draining))
        × (set_domain_enabled R x es q d' ≡ (d', mutation_rejected CommitRejection.draining))
        × (heartbeat b later d' ≡ (d', err CommitRejection.draining))
  unfolding register unregister set_entrypoint_enabled set_domain_enabled heartbeat
  shutdown_refuses now stopped d x es r id session p q b later =
      let h = shutdown-issue now stopped d in
      let d' = (shutdown now stopped (ok tt) d).0 in
      (
        with_fence-refused _ (register_fenced R x es r) d' CommitRejection.draining h,
        with_fence-refused mutation_rejected (unregister_fenced R x es id session) d'
            CommitRejection.draining h,
        with_fence-refused mutation_rejected (set_entrypoint_enabled_fenced R x es p) d'
            CommitRejection.draining h,
        with_fence-refused mutation_rejected (set_domain_enabled_fenced R x es q) d'
            CommitRejection.draining h,
        rw (h, heartbeat) refl,
      )
