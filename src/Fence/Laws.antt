-- ===== src/Fence/Laws.antt =====
-- What one method of an operation fence decides.
use cadder.Base.{suc, ◌≤◌, Result-cases, ◌≡◌, refl, ◌↔◌, true, ok, err, arith, inl, inr}
use cadder.Fence.{
  CommitRejection, LifecyclePhase, CommitPermitState, LifecycleEpoch, OperationFence, issue,
  begin_drain, is_cancelled, admit, begin_final_commit, guard_commit, commit_final,
}

-- An operation may commit exactly while its epoch is current, the daemon is active and its permit
-- is active.
pub record MayCommit (l : LifecycleEpoch) (f : OperationFence) : Type 0 where
  pub current : l.number ≡ f.epoch
  pub running : l.phase ≡ LifecyclePhase.active
  pub permitted : f.permit ≡ CommitPermitState.active

-- An operation may commit exactly while its epoch is current, the daemon is active and its permit is
-- active.
pub admit_iff : (l : LifecycleEpoch) (f : OperationFence) → (admit l f ≡ ok tt) ↔ MayCommit l f
unfolding admit
admit_iff l f = (
  λ h. record { current = ground arith; running = ground arith; permitted = ground arith },
  λ m. ground (arith, m.current, m.running, m.permitted),
)

module _ {ℓ κ} {S : Type ℓ} {T : Type κ} where
  -- A final commit runs its action and makes the permit final if the operation may commit;
  -- otherwise it returns a rejection, and leaves the fence and the state as they were.
  pub commit_final_cases :
      (l : LifecycleEpoch) (f : OperationFence) (action : S → S × T) (s : S)
      → (MayCommit l f
          → commit_final l f action s
            ≡ (record f { permit = CommitPermitState.finalized }, (action s).0, ok (action s).1))
        × (¬ MayCommit l f → (e : CommitRejection) × (commit_final l f action s ≡ (f, s, err e)))
  unfolding commit_final begin_final_commit guard_commit
  commit_final_cases l f action s = (
    λ m. cc ((admit_iff l f).1 m),
    λ n. elim (Result-cases (admit l f)) [
      | inl (_, e) ↦ absurd (n ((admit_iff l f).0 e))
      | inr (r, e) ↦ (r, cc e)
    ],
  )

-- A fence that is issued may commit at once, and none is issued while the daemon drains.
pub issue_cases :
    (l : LifecycleEpoch)
    → ((l.phase ≡ LifecyclePhase.active) → (f : OperationFence) × (issue l ≡ ok f) × MayCommit l f)
      × ((l.phase ≡ LifecyclePhase.draining) → issue l ≡ err CommitRejection.draining)
unfolding issue
issue_cases l = (
  λ e. (
    record { epoch = l.number; permit = CommitPermitState.active; cancelled = l.cancelled },
    ground arith,
    record { current = refl; running = e; permitted = refl },
  ),
  λ e. ground arith,
)

-- A drain happens once: its epoch is the next one, the lifecycle's token is cancelled with every
-- fence's, a fence of an earlier epoch can no longer commit, and a second drain changes nothing.
pub begin_drain_lem :
    (l : LifecycleEpoch) (f : OperationFence)
    → l.phase ≡ LifecyclePhase.active
    → let d = begin_drain l in
      (d.1 ≡ suc l.number)
      × (is_cancelled d.0 f ≡ true)
      × (f.epoch ≤ l.number → admit d.0 f ≡ err CommitRejection.stale_epoch)
      × (issue d.0 ≡ err CommitRejection.draining)
      × (begin_drain d.0 ≡ d)
unfolding begin_drain is_cancelled admit issue
begin_drain_lem l f e =
    (ground arith, ground arith, (λ h. ground arith), ground arith, ground arith)
