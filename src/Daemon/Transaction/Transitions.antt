-- ===== src/Daemon/Transaction/Transitions.antt =====
-- A transaction that fails changes no desired state, and leaves Caddy as it was or asks for the
-- daemon's shutdown.
use cadder.Base.{ℕ, String, ◌≡◌, refl, inl, Option, none, some, List, Result, ok, err, ◌∙◌, ap}
use cadder.Caddy.Coordinator.{
  Coordinator, CaddyApplyAction, unchanged, stop, apply, finish_idle, finish_runtime_apply,
}
use cadder.Daemon.{DaemonState, Task, Env, log_env}
use cadder.Daemon.Transaction.{
  fenced, runtime, machine, with_machine, log_runtime_transition_failure, RuntimeTransitionReceipt,
  applied, stopped, receipt_accept, receipt_rollback, settle, stop_runtime, apply_runtime,
  transition,
}
use cadder.Daemon.Transaction.Preserve.{Keeps, Keeps-refl, Keeps-trans}
use cadder.Fence.{CommitRejection, admit}
use cadder.Runtime.{Machine, Runtime, Serving}
use cadder.Daemon.Transaction.Undo.{
  IsUndoable, IsUndoableLater, IsAcceptable, IsBegun, rollback-IsSafe, with_machine-Keeps,
  log_failure-Keeps,
}

-- The coordinator and the configuration that an action asks for.
pub finished : Env → CaddyApplyAction → Coordinator → Coordinator
finished x (unchanged s) c = c
finished x (stop n) c = finish_idle n c
finished x (apply n rendered hash paths) c =
    finish_runtime_apply x.reloaded_at n hash paths (ok tt) c

unfoldable pub target_of : CaddyApplyAction → Option (List ℕ) → Option (List ℕ)
target_of (unchanged s) before = before
target_of (stop n) before = none
target_of (apply n rendered hash paths) before = some rendered

module _ {R : Runtime} (V : Serving R) where
  logged-IsUndoable :
      (x : Env) (r : RuntimeTransitionReceipt R) (e : String) (d d' : DaemonState R.State)
      → IsUndoable V d x r (machine d')
      → IsUndoable V d x r (machine (log_runtime_transition_failure x e d'))
  unfolding log_runtime_transition_failure
  logged-IsUndoable x r e d d' undoes lines m' = undoes lines m'

  settle-IsBegun :
      (x : Env) (target : Option (List ℕ)) (r : RuntimeTransitionReceipt R)
      (o : Result (Unit {0}) String) (d d' : DaemonState R.State) (c : Coordinator)
      → Keeps d d'
      → d'.shutdown ≡ d.shutdown
      → IsUndoable V d x r (machine d')
      → IsUndoableLater V d x r (machine d')
      → (o ≡ ok tt → IsAcceptable V target x r (machine d'))
      → IsBegun V x d target c (settle R x r o d' c)
  unfolding settle IsBegun
  settle-IsBegun x target r (ok u) d d' c k s undoes later accepts =
      (k, s, undoes, later, accepts refl, refl)
  settle-IsBegun x target r (err e) d d' c k s undoes later accepts =
      let logged = log_runtime_transition_failure x e d' in
      let (safe, kept) = rollback-IsSafe V x r d logged (logged-IsUndoable x r e d d' undoes) in
      (Keeps-trans k (Keeps-trans (log_failure-Keeps V x e d') kept), safe)

  stop-receipt :
      (x : Env) (d : DaemonState R.State) (m : Machine R.State) (r : R.StopReceipt)
      (o : Result (Unit {0}) String)
      → R.begin_stop (log_env x) (machine d) ≡ (m, ok (r, o))
      → IsUndoable V d x (stopped r) m
        × IsUndoableLater V d x (stopped r) m
        × (o ≡ ok tt → IsAcceptable V none x (stopped r) m)
  unfolding receipt_rollback receipt_accept
  stop-receipt x d m r o h = (
    λ lines m'. V.stop_undone (log_env x) (machine d) m m' r o lines h,
    λ before lines m'. V.stop_undone_later (log_env x) (machine d) m m' r o before lines h,
    λ good lines m'.
        V.stop_accepted (log_env x) (machine d) m m' r lines (h ∙ ap (λ z. (m, ok (r, z))) good),
  )

  apply-receipt :
      (x : Env) (rendered : List ℕ) (d : DaemonState R.State) (m : Machine R.State)
      (r : R.ApplyReceipt) (o : Result (Unit {0}) String)
      → R.begin_apply_config (log_env x) rendered (machine d) ≡ (m, ok (r, o))
      → IsUndoable V d x (applied r) m
        × IsUndoableLater V d x (applied r) m
        × (o ≡ ok tt → IsAcceptable V (some rendered) x (applied r) m)
  unfolding receipt_rollback receipt_accept
  apply-receipt x rendered d m r o h = (
    λ lines m'. V.apply_undone (log_env x) rendered (machine d) m m' r o lines h,
    λ before lines m'.
        V.apply_undone_later (log_env x) rendered (machine d) m m' r o before lines h,
    λ good lines m'.
        V.apply_accepted (log_env x) rendered (machine d) m m' r lines
          (h ∙ ap (λ z. (m, ok (r, z))) good),
  )

  stop-IsBegun :
      (x : Env) (n : ℕ) (d : DaemonState R.State) (c : Coordinator)
      → IsBegun V x d none (finish_idle n c) (stop_runtime R x n d c)
  unfolding stop_runtime IsBegun
  stop-IsBegun x n d c = by_attempt (R.begin_stop (log_env x) (machine d)) refl
    where
      by_attempt :
          (p : Machine R.State × Result (R.StopReceipt × Result (Unit {0}) String) String)
          → R.begin_stop (log_env x) (machine d) ≡ p
          → IsBegun V x d none (finish_idle n c) (elim p.1 [
            | err e ↦ (with_machine p.0 d, err (runtime e))
            | ok (r, o) ↦ settle R x (stopped r) o (with_machine p.0 d) (finish_idle n c)
          ])
      by_attempt (m, err e) h =
          (with_machine-Keeps V m d, inl (V.stop_refused (log_env x) (machine d) m e h))
      by_attempt (m, ok (r, o)) h =
          let (undoes, later, accepts) = stop-receipt x d m r o h in
          settle-IsBegun x none (stopped r) o d (with_machine m d) (finish_idle n c)
            (with_machine-Keeps V m d) refl undoes later accepts

  apply-IsBegun :
      (x : Env) (n : ℕ) (rendered : List ℕ) (hash : String) (paths : List String)
      (d : DaemonState R.State) (c : Coordinator)
      → IsBegun V x d
          (some rendered)
          (finish_runtime_apply x.reloaded_at n hash paths (ok tt) c)
          (apply_runtime R x n rendered hash paths d c)
  unfolding apply_runtime IsBegun
  apply-IsBegun x n rendered hash paths d c =
      by_attempt (R.begin_apply_config (log_env x) rendered (machine d)) refl
    where
      after : Coordinator
      after = finish_runtime_apply x.reloaded_at n hash paths (ok tt) c

      by_attempt :
          (p : Machine R.State × Result (R.ApplyReceipt × Result (Unit {0}) String) String)
          → R.begin_apply_config (log_env x) rendered (machine d) ≡ p
          → IsBegun V x d (some rendered) after (elim p.1 [
            | err e ↦ (with_machine p.0 d, err (runtime e))
            | ok (r, o) ↦ settle R x (applied r) o (with_machine p.0 d) after
          ])
      by_attempt (m, err e) h =
          (with_machine-Keeps V m d, inl (V.apply_refused (log_env x) rendered (machine d) m e h))
      by_attempt (m, ok (r, o)) h =
          let (undoes, later, accepts) = apply-receipt x rendered d m r o h in
          settle-IsBegun x (some rendered) (applied r) o d (with_machine m d) after
            (with_machine-Keeps V m d) refl undoes later accepts

  pub transition-IsBegun :
      (x : Env) (a : CaddyApplyAction) (t : Task R.State) (c : Coordinator)
      → IsBegun V x t.state
          (target_of a (V.serving t.state.runtime))
          (finished x a c)
          (transition R x a t c)
  unfolding transition IsBegun finished target_of
  transition-IsBegun x (unchanged s) t c = (refl, refl, refl)
  transition-IsBegun x (stop n) t c = by_admit (admit t.state.lifecycle t.fence)
    where
      by_admit :
          (o : Result (Unit {0}) CommitRejection)
          → IsBegun V x t.state none
              (finish_idle n c)
              (elim o [ err e ↦ (t.state, err (fenced e)) | ok _ ↦ stop_runtime R x n t.state c ])
      by_admit (err e) = (Keeps-refl t.state, inl refl)
      by_admit (ok u) = stop-IsBegun x n t.state c
  transition-IsBegun x (apply n rendered hash paths) t c =
      by_admit (admit t.state.lifecycle t.fence)
    where
      by_admit :
          (o : Result (Unit {0}) CommitRejection)
          → IsBegun V x t.state
              (some rendered)
              (finish_runtime_apply x.reloaded_at n hash paths (ok tt) c)
              (elim o [
                | err e ↦ (t.state, err (fenced e))
                | ok _ ↦ apply_runtime R x n rendered hash paths t.state c
              ])
      by_admit (err e) = (Keeps-refl t.state, inl refl)
      by_admit (ok u) = apply-IsBegun x n rendered hash paths t.state c
