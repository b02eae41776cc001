-- ===== src/Daemon/Transaction/Receipts.antt =====
-- What the receipt of a begun transition is good for.
use cadder.Base.{ℕ, ◌≡◌, inl, Option, none, some, List, ok, ◌∙◌, ap, sym, subst}
use cadder.Caddy.Coordinator.{Coordinator}
use cadder.Daemon.{DaemonState, Env, log_env}
use cadder.Daemon.Transaction.{
  machine, RuntimeTransitionReceipt, receipt_accept, receipt_rollback, rollback_runtime_transition,
  accept_in,
}
use cadder.Daemon.Transaction.Preserve.{Keeps, Keeps-refl}
use cadder.Daemon.Transaction.Undo.{IsSafe, IsUndoable, rollback-IsSafe, IsBegun}
use cadder.LogStore.{CaddyLogStore}
use cadder.Runtime.{Machine, Runtime, Serving}

module _ {R : Runtime} (V : Serving R) (x : Env) where
  -- The transition's receipt, if there is one, can take Caddy in this state back to `d`.
  unfoldable pub IsHeld :
      DaemonState R.State → Option (RuntimeTransitionReceipt R) → Machine R.State → Type 0
  IsHeld d none m = V.serving m.runtime ≡ V.serving d.runtime
  IsHeld d (some r) m = IsUndoable V d x r m

  -- What a successful transition promises of its receipt.
  pub record IsReady (d : DaemonState R.State) (target : Option (List ℕ)) (fin : Coordinator)
      (d' : DaemonState R.State) (c : Coordinator) (r : Option (RuntimeTransitionReceipt R))
      : Type 0 where
    pub keeps : Keeps d d'
    pub coordinator : c ≡ fin
    pub held : IsHeld d r (machine d')
    pub held_later :
        (z : DaemonState R.State)
        → z.runtime ≡ d'.runtime
        → IsHeld d r (machine (accept_in R x r z).0)
    pub serves :
        (z : DaemonState R.State)
        → z.runtime ≡ d'.runtime
        → (accept_in R x r z).1 ≡ ok tt
        → V.serving (accept_in R x r z).0.runtime ≡ target

  pub ready :
      (d : DaemonState R.State) (target : Option (List ℕ)) (fin : Coordinator)
      (d' : DaemonState R.State) (c : Coordinator) (r : Option (RuntimeTransitionReceipt R))
      → IsBegun V x d target fin (d', ok (c, r))
      → IsReady d target fin d' c r
  unfolding IsBegun IsHeld accept_in
  ready d target fin d' c none (same, unchanged_target, done) = record {
    keeps = subst (Keeps d) (sym same) (Keeps-refl d);
    coordinator = done;
    held = ap (λ (z : DaemonState R.State). V.serving z.runtime) same;
    held_later = λ z e. ap V.serving e ∙ ap (λ (y : DaemonState R.State). V.serving y.runtime) same;
    serves = λ z e good.
        ap V.serving e
        ∙ ap (λ (y : DaemonState R.State). V.serving y.runtime) same
        ∙ sym unchanged_target;
  }
  ready d target fin d' c (some r) (kept, down, undoes, later, accepts, done) = record {
    keeps = kept;
    coordinator = done;
    held = undoes;
    held_later = λ z e.
        subst
          (λ s.
            IsUndoable V d x r
              (receipt_accept R (log_env x) r (record { runtime = s; logs = z.logs })).0)
          (sym e) (later z.logs);
    serves = λ z e good. accepted z.logs z.runtime e good;
  }
    where
      accepted :
          (lines : CaddyLogStore) (s : R.State)
          → s ≡ d'.runtime
          → (receipt_accept R (log_env x) r (record { runtime = s; logs = lines })).1 ≡ ok tt
          → V.serving
              (receipt_accept R (log_env x) r (record { runtime = s; logs = lines })).0.runtime
            ≡ target
      accepted lines s e good =
          accepts lines (receipt_accept R (log_env x) r (record { runtime = s; logs = lines })).0 (
            ap
              (λ (y : R.State).
                receipt_accept R (log_env x) r (record { runtime = y; logs = lines }))
              (sym e)
            ∙ ap
                (λ o.
                  ((receipt_accept R (log_env x) r (record { runtime = s; logs = lines })).0, o))
                good)

  pub IsHeld-by :
      (d : DaemonState R.State) (r : Option (RuntimeTransitionReceipt R))
      (y z : DaemonState R.State)
      → IsHeld d r (machine y)
      → z.runtime ≡ y.runtime
      → IsHeld d r (machine z)
  unfolding IsHeld
  IsHeld-by d none y z h same = ap V.serving same ∙ h
  IsHeld-by d (some r) y z h same = λ lines m' e. h lines m' (
      ap (λ s. receipt_rollback R (log_env x) r (record { runtime = s; logs = lines })) (sym same)
      ∙ e)

  -- A rollback from a held state.
  pub rollback_held :
      (d d' : DaemonState R.State) (r : Option (RuntimeTransitionReceipt R))
      → IsHeld d r (machine d')
      → IsSafe V d (rollback_runtime_transition R x r d')
        × Keeps d' (rollback_runtime_transition R x r d')
  unfolding IsHeld rollback_runtime_transition
  rollback_held d d' none h = (inl h, Keeps-refl d')
  rollback_held d d' (some r) h = rollback-IsSafe V x r d d' h
