-- ===== src/Daemon/Transaction.antt =====
-- `execute_registration_transaction` of crates/cadder-daemon/src/state/registrations.rs: a
-- candidate state is taken to Caddy's runtime, stored, and then published under the fence's final
-- commit, or undone. `Schedule` says what other tasks do at each of the points where a mutation
-- waits.
pub mod Preserve
pub mod Transition
pub mod Undo
pub mod Transitions
pub mod Publish
pub mod Receipts
pub mod Ending
pub mod Completion
use Prim.Native.String as Str
use cadder.Base.{ℕ, String, Bool, true, false, Option, none, some, List, Result, ok, err}
use cadder.Base.Dict.{values}
use cadder.Caddy.Coordinator.{
  Coordinator, CaddyApplyAction, unchanged, stop, apply, begin_apply, finish_idle,
  finish_runtime_apply,
}
use cadder.Daemon.{DaemonState, Task, Env, log_env}
use cadder.Daemon.Interleaving.{Event, meanwhile}
use cadder.Daemon.Shutdown.{request_shutdown, begin_operation_drain}
use cadder.Database.{Tables, persist_desired_state}
use cadder.Fence.{
  CommitRejection, OperationFence, admit, begin_final_commit, guard_commit, drop_guard,
}
use cadder.LogStore.{CaddyLogStore, append}
use cadder.Protocol.Logs.{LogSeverity, LogAttributionKind, runtime_control_stream}
use cadder.Registrations.{Registrations, merge_live_heartbeats}
use cadder.Runtime.{Machine, LogEnv, Runtime}
pub use cadder.Daemon.Transaction.Transition.{
  RegistrationTransactionFailure, fenced, runtime, storage, machine, with_machine,
  RuntimeTransitionReceipt, applied, stopped,
}
unfoldable pub use cadder.Daemon.Transaction.Transition.{
  give_up, log_runtime_transition_failure, receipt_accept, receipt_rollback,
  rollback_runtime_transition, settle, stop_runtime, apply_runtime, transition,
}

pub record RegistrationTransaction : Type 0 where
  pub coordinator : Coordinator
  pub registrations : Registrations

-- Before the candidate is made, while it is prepared, before Caddy is told, while Caddy works, and
-- before a rollback.
pub record Schedule : Type 0 where
  pub arriving : List Event
  pub preparing : List Event
  pub composing : List Event
  pub applying : List Event
  pub undoing : List Event

module _ {S : Type 0} where
  -- The stored tables, if there is a database.
  persist_in :
      Env → Registrations → Option Tables → DaemonState S → DaemonState S × Result (Unit {0}) String
  unfolding persist_desired_state
  persist_in x m none d = (d, ok tt)
  persist_in x m (some t) d =
      let (t', result) = persist_desired_state x.persist_fault (values m) t in
      (record d { database = some t' }, result)

  unfoldable pub persist :
      Env → Registrations → DaemonState S → DaemonState S × Result (Unit {0}) String
  unfolding persist_in
  persist x m d = persist_in x m d.database d

  -- What the final commit writes.
  abbrev pub publish_candidate : RegistrationTransaction → DaemonState S → DaemonState S × Unit {0}
  publish_candidate c d =
      (record d { registrations = c.registrations; coordinator = c.coordinator }, tt)

module _ (R : Runtime) where
  unfoldable pub apply_runtime_transition :
      Env
      → Task R.State
      → RegistrationTransaction
      → DaemonState R.State
        × Result (Coordinator × Option (RuntimeTransitionReceipt R)) RegistrationTransactionFailure
  unfolding transition begin_apply
  apply_runtime_transition x t c =
      let (coordinator, action) =
        begin_apply x.externals x.attempted_at (values c.registrations) c.coordinator in
      transition R x action t coordinator

  pub accept_in :
      Env
      → Option (RuntimeTransitionReceipt R)
      → DaemonState R.State
      → DaemonState R.State × Result (Unit {0}) String
  unfolding receipt_accept
  accept_in x none d = (d, ok tt)
  accept_in x (some r) d =
      let (m, result) = receipt_accept R (log_env x) r (machine d) in (with_machine m d, result)

  -- The publication under the guard, which is dropped on an error.
  guarded_publish :
      Env
      → OperationFence
      → Option (RuntimeTransitionReceipt R)
      → RegistrationTransaction
      → DaemonState R.State
      → Task R.State × Result (Unit {0}) RegistrationTransactionFailure
  unfolding accept_in persist guard_commit drop_guard
  guarded_publish x guard r c d =
      let (d₁, accepted) = accept_in x r d in
      let (d₂, stored) = persist x c.registrations d₁ in
      let (f, d₃, done) = guard_commit guard (publish_candidate c) d₂ in
      elim accepted [
        | err e ↦ (record { state = d₁; fence = drop_guard guard }, err (runtime e))
        | ok _ ↦ elim stored [
          | err e ↦ (record { state = d₂; fence = drop_guard guard }, err (storage e))
          | ok _ ↦ (record { state = d₃; fence = f }, ok tt)
        ]
      ]

  unfoldable pub publish :
      Env
      → Option (RuntimeTransitionReceipt R)
      → RegistrationTransaction
      → Task R.State
      → Task R.State × Result (Unit {0}) RegistrationTransactionFailure
  unfolding begin_final_commit guarded_publish merge_live_heartbeats
  publish x r c t =
      let (f, begun) = begin_final_commit t.state.lifecycle t.fence in
      elim begun [
        | err e ↦ (record t { fence = f }, err (fenced e))
        | ok _ ↦
            guarded_publish x f r
              (record c {
                registrations = merge_live_heartbeats c.registrations t.state.registrations;
              })
              t.state
      ]

  -- A transaction that was not published is undone.
  undo :
      Env
      → List Event
      → Option (RuntimeTransitionReceipt R)
      → Task R.State × Result (Unit {0}) RegistrationTransactionFailure
      → Task R.State × Result (Unit {0}) RegistrationTransactionFailure
  unfolding rollback_runtime_transition meanwhile
  undo x es r (t, ok _) = (t, ok tt)
  undo x es r (t, err e) =
      let t' = meanwhile es t in
      (record t' { state = rollback_runtime_transition R x r t'.state }, err e)

  unfoldable pub execute_registration_transaction :
      Env
      → Schedule
      → RegistrationTransaction
      → Task R.State
      → Task R.State × Result (Unit {0}) RegistrationTransactionFailure
  unfolding apply_runtime_transition publish undo meanwhile
  execute_registration_transaction x es c t =
      let t₁ = meanwhile es.composing t in
      let (d, transitioned) = apply_runtime_transition x t₁ c in
      elim transitioned [
        | err e ↦ (record t₁ { state = d }, err e)
        | ok (coordinator, r) ↦ undo x es.undoing r (
            publish x r (record c { coordinator = coordinator })
              (meanwhile es.applying (record t₁ { state = d })))
      ]
