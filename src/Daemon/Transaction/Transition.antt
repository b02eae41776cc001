-- ===== src/Daemon/Transaction/Transition.antt =====
-- The transition of Caddy's runtime in `execute_registration_transaction` of
-- crates/cadder-daemon/src/state/registrations.rs, with its receipt and its rollback.
use Prim.Native.String as Str
use cadder.Base.{ℕ, String, Option, none, some, List, Result, ok, err}
use cadder.Caddy.Coordinator.{
  Coordinator, CaddyApplyAction, unchanged, stop, apply, finish_idle, finish_runtime_apply,
}
use cadder.Daemon.{DaemonState, Task, Env, log_env}
use cadder.Daemon.Shutdown.{request_shutdown, begin_operation_drain}
use cadder.Fence.{CommitRejection, admit}
use cadder.LogStore.{CaddyLogStore, append}
use cadder.Protocol.Logs.{LogSeverity, LogAttributionKind, runtime_control_stream}
use cadder.Runtime.{Machine, LogEnv, Runtime}

pub data RegistrationTransactionFailure : Type 0 where
  fenced : CommitRejection → RegistrationTransactionFailure
  runtime storage : String → RegistrationTransactionFailure

-- `CaddyLogStore::append` of a line about the runtime.
unfoldable pub append_control : Env → LogSeverity → String → String → CaddyLogStore → CaddyLogStore
unfolding append
append_control x severity message operation logs =
    append x.externals.redact x.logged_at x.log_fault runtime_control_stream severity message
      LogAttributionKind.runtime_control (some operation) logs

module _ {S : Type 0} where
  abbrev pub machine : DaemonState S → Machine S
  machine d = record { runtime = d.runtime; logs = d.logs }

  abbrev pub with_machine : Machine S → DaemonState S → DaemonState S
  with_machine m d = record d { runtime = m.runtime; logs = m.logs }

  -- A failed rollback stops new operations, asks for the shutdown, and is logged.
  unfoldable pub give_up : Env → String → DaemonState S → DaemonState S
  unfolding begin_operation_drain request_shutdown append_control
  give_up x error d =
      let d' = request_shutdown x.now (begin_operation_drain d) in
      record d' {
        logs =
            append_control x LogSeverity.error
              (Str.◌++◌
                "runtime transition rollback failed after rejected registration; Cadder requested shutdown: "
                error)
              "registration-rollback" d'.logs;
      }

  unfoldable pub log_runtime_transition_failure : Env → String → DaemonState S → DaemonState S
  unfolding append_control
  log_runtime_transition_failure x error d = record d {
    logs =
        append_control x LogSeverity.error
          (Str.◌++◌ "Caddy runtime transition failed; Cadder is restoring the previous state: "
            error)
          "registration-runtime-transition" d.logs;
  }

module _ (R : Runtime) where
  pub data RuntimeTransitionReceipt : Type 0 where
    applied : R.ApplyReceipt → RuntimeTransitionReceipt
    stopped : R.StopReceipt → RuntimeTransitionReceipt

module _ (R : Runtime) where
  unfoldable pub receipt_accept :
      LogEnv
      → RuntimeTransitionReceipt R
      → Machine R.State
      → Machine R.State × Result (Unit {0}) String
  receipt_accept l (applied r) m = R.accept_apply l r m
  receipt_accept l (stopped r) m = R.accept_stop l r m

  unfoldable pub receipt_rollback :
      LogEnv
      → RuntimeTransitionReceipt R
      → Machine R.State
      → Machine R.State × Result (Unit {0}) String
  receipt_rollback l (applied r) m = R.rollback_apply l r m
  receipt_rollback l (stopped r) m = R.rollback_stop l r m

  unfoldable pub rollback_runtime_transition :
      Env → Option (RuntimeTransitionReceipt R) → DaemonState R.State → DaemonState R.State
  unfolding receipt_rollback give_up
  rollback_runtime_transition x none d = d
  rollback_runtime_transition x (some r) d =
      let (m, result) = receipt_rollback (log_env x) r (machine d) in
      elim result [ ok _ ↦ with_machine m d | err e ↦ give_up x e (with_machine m d) ]

  -- The end of a begun transition: a bad outcome is undone at once.
  unfoldable pub settle :
      Env
      → RuntimeTransitionReceipt R
      → Result (Unit {0}) String
      → DaemonState R.State
      → Coordinator
      → DaemonState R.State
        × Result (Coordinator × Option (RuntimeTransitionReceipt R)) RegistrationTransactionFailure
  unfolding rollback_runtime_transition log_runtime_transition_failure
  settle x r (ok _) d c = (d, ok (c, some r))
  settle x r (err e) d c = (
    rollback_runtime_transition x (some r) (log_runtime_transition_failure x e d),
    err (runtime e),
  )

  unfoldable pub stop_runtime :
      Env
      → ℕ
      → DaemonState R.State
      → Coordinator
      → DaemonState R.State
        × Result (Coordinator × Option (RuntimeTransitionReceipt R)) RegistrationTransactionFailure
  unfolding settle finish_idle
  stop_runtime x attempted d c =
      let (m, attempt) = R.begin_stop (log_env x) (machine d) in
      elim attempt [
        | err e ↦ (with_machine m d, err (runtime e))
        | ok (r, outcome) ↦
            settle x (stopped r) outcome (with_machine m d) (finish_idle attempted c)
      ]

  unfoldable pub apply_runtime :
      Env
      → ℕ
      → List ℕ
      → String
      → List String
      → DaemonState R.State
      → Coordinator
      → DaemonState R.State
        × Result (Coordinator × Option (RuntimeTransitionReceipt R)) RegistrationTransactionFailure
  unfolding settle finish_runtime_apply
  apply_runtime x attempted rendered hash paths d c =
      let (m, attempt) = R.begin_apply_config (log_env x) rendered (machine d) in
      elim attempt [
        | err e ↦ (with_machine m d, err (runtime e))
        | ok (r, outcome) ↦
            settle x (applied r) outcome (with_machine m d)
              (finish_runtime_apply x.reloaded_at attempted hash paths (ok tt) c)
      ]

  -- The fence is checked before the runtime is touched.
  unfoldable pub transition :
      Env
      → CaddyApplyAction
      → Task R.State
      → Coordinator
      → DaemonState R.State
        × Result (Coordinator × Option (RuntimeTransitionReceipt R)) RegistrationTransactionFailure
  unfolding admit stop_runtime apply_runtime
  transition x (unchanged s) t c = (t.state, ok (c, none))
  transition x (stop attempted) t c = elim (admit t.state.lifecycle t.fence) [
    | err e ↦ (t.state, err (fenced e))
    | ok _ ↦ stop_runtime x attempted t.state c
  ]
  transition x (apply attempted rendered hash paths) t c = elim (admit t.state.lifecycle t.fence) [
    | err e ↦ (t.state, err (fenced e))
    | ok _ ↦ apply_runtime x attempted rendered hash paths t.state c
  ]
