-- ===== src/Daemon/Transaction/Undo.antt =====
-- When the transition of the runtime can be undone, and what its undoing leaves.
use cadder.Base.{
  ℕ, String, ◌≡◌, refl, ◌⊎◌, inl, inr, true, Option, none, some, List, Result, ok, err, ◌∙◌, ap,
}
use cadder.Caddy.Coordinator.{Coordinator}
use cadder.Daemon.{DaemonState, Env, log_env}
use cadder.Daemon.Shutdown.{request_shutdown, request_signal, begin_operation_drain}
use cadder.Daemon.Transaction.{
  RegistrationTransactionFailure, machine, with_machine, give_up, log_runtime_transition_failure,
  RuntimeTransitionReceipt, receipt_accept, receipt_rollback, rollback_runtime_transition,
}
use cadder.Daemon.Transaction.Preserve.{Keeps, IsQuiet, Keeps-trans}
use cadder.LogStore.{CaddyLogStore}
use cadder.Runtime.{Machine, Runtime, Serving}

module _ {R : Runtime} (V : Serving R) where
  -- Caddy serves what it did, or the daemon is to shut down.
  abbrev pub IsSafe : DaemonState R.State → DaemonState R.State → Type 0
  IsSafe d d' = (V.serving d'.runtime ≡ V.serving d.runtime) ⊎ (d'.shutdown.requested ≡ true)

  -- Safety carries back over quiet steps.
  pub IsSafe-of_quiet : (a b c : DaemonState R.State) → IsQuiet a b → IsSafe b c → IsSafe a c
  IsSafe-of_quiet a b c q (inl same) = inl (same ∙ ap V.serving q.runtime)
  IsSafe-of_quiet a b c q (inr down) = inr down

  give_up-IsSafe : (x : Env) (e : String) (d d' : DaemonState R.State) → IsSafe d (give_up x e d')
  unfolding give_up request_shutdown request_signal
  give_up-IsSafe x e d d' = inr refl

  give_up-Keeps : (x : Env) (e : String) (d : DaemonState R.State) → Keeps d (give_up x e d)
  unfolding give_up request_shutdown begin_operation_drain
  give_up-Keeps x e d = record {
    registrations = refl;
    coordinator = refl;
    database = refl;
    exclusive = λ x. x;
  }

  pub with_machine-Keeps :
      (m : Machine R.State) (d : DaemonState R.State) → Keeps d (with_machine m d)
  with_machine-Keeps m d = record {
    registrations = refl;
    coordinator = refl;
    database = refl;
    exclusive = λ x. x;
  }

  -- A receipt whose rollback, if it succeeds, brings back what Caddy served in `d`.
  abbrev pub IsUndoable :
      DaemonState R.State → Env → RuntimeTransitionReceipt R → Machine R.State → Type 0
  IsUndoable d x r m =
      (lines : CaddyLogStore) (m' : Machine R.State)
      → receipt_rollback R (log_env x) r (record m { logs = lines }) ≡ (m', ok tt)
      → V.serving m'.runtime ≡ V.serving d.runtime

  pub rollback-IsSafe :
      (x : Env) (r : RuntimeTransitionReceipt R) (d d' : DaemonState R.State)
      → IsUndoable d x r (machine d')
      → IsSafe d (rollback_runtime_transition R x (some r) d')
        × Keeps d' (rollback_runtime_transition R x (some r) d')
  unfolding rollback_runtime_transition
  rollback-IsSafe x r d d' undoes = by_result (receipt_rollback R (log_env x) r (machine d')) refl
    where
      by_result :
          (p : Machine R.State × Result (Unit {0}) String)
          → receipt_rollback R (log_env x) r (machine d') ≡ p
          → IsSafe d
              (elim p.1 [ ok _ ↦ with_machine p.0 d' | err e ↦ give_up x e (with_machine p.0 d') ])
            × Keeps d' (elim p.1 [
              | ok _ ↦ with_machine p.0 d'
              | err e ↦ give_up x e (with_machine p.0 d')
            ])
      by_result (m, ok u) e = (inl (undoes d'.logs m e), with_machine-Keeps m d')
      by_result (m, err f) e = (
        give_up-IsSafe x f d (with_machine m d'),
        Keeps-trans (with_machine-Keeps m d') (give_up-Keeps x f (with_machine m d')),
      )

  pub log_failure-Keeps :
      (x : Env) (e : String) (d : DaemonState R.State)
      → Keeps d (log_runtime_transition_failure x e d)
  unfolding log_runtime_transition_failure
  log_failure-Keeps x e d = record {
    registrations = refl;
    coordinator = refl;
    database = refl;
    exclusive = λ x. x;
  }

  -- A receipt whose acceptance, if it succeeds, makes Caddy serve the target.
  abbrev pub IsAcceptable :
      Option (List ℕ) → Env → RuntimeTransitionReceipt R → Machine R.State → Type 0
  IsAcceptable target x r m =
      (lines : CaddyLogStore) (m' : Machine R.State)
      → receipt_accept R (log_env x) r (record m { logs = lines }) ≡ (m', ok tt)
      → V.serving m'.runtime ≡ target

  abbrev pub IsUndoableLater :
      DaemonState R.State → Env → RuntimeTransitionReceipt R → Machine R.State → Type 0
  IsUndoableLater d x r m =
      (lines : CaddyLogStore)
      → IsUndoable d x r (receipt_accept R (log_env x) r (record m { logs = lines })).0

  -- What a transition that was begun is worth: on an error everything is as before, and on success
  -- its receipt, if there is one, can be accepted, and undone before and after that.
  unfoldable pub IsBegun :
      Env
      → DaemonState R.State
      → Option (List ℕ)
      → Coordinator
      → DaemonState R.State
        × Result (Coordinator × Option (RuntimeTransitionReceipt R)) RegistrationTransactionFailure
      → Type 0
  IsBegun x d target fin (d', err e) = Keeps d d' × IsSafe d d'
  IsBegun x d target fin (d', ok (c, none)) = (d' ≡ d) × (target ≡ V.serving d.runtime) × (c ≡ fin)
  IsBegun x d target fin (d', ok (c, some r)) =
      Keeps d d'
      × (d'.shutdown ≡ d.shutdown)
      × IsUndoable d x r (machine d')
      × IsUndoableLater d x r (machine d')
      × IsAcceptable target x r (machine d')
      × (c ≡ fin)
