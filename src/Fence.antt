-- ===== src/Fence.antt =====
-- crates/cadder-daemon/src/operation_fence.rs: the daemon's lifecycle epoch, and the permit with
-- which one operation commits. A cancellation token is a flag; a child token of the lifecycle is
-- cancelled with it. Each method runs under its locks, so it is one step on the epoch and permit.
pub mod Laws
pub mod Histories
use cadder.Base.{ℕ, ◌+◌, Bool, true, false, not, ◌||◌, Result, ok, err, ◌==◌, nat_eq, if◌then◌else◌}

pub data CommitRejection : Type 0 where
  revoked stale_epoch draining : CommitRejection

pub data LifecyclePhase : Type 0 where
  active draining : LifecyclePhase

pub data CommitPermitState : Type 0 where
  active committing finalized revoked : CommitPermitState

pub data RevokeOutcome : Type 0 where
  revoked already_revoked finalized : RevokeOutcome

-- The authority's shared state. `cancelled` is the lifecycle's own token.
pub record LifecycleEpoch : Type 0 where
  pub number : ℕ
  pub phase : LifecyclePhase
  pub cancelled : Bool

abbrev pub initial_epoch : LifecycleEpoch
initial_epoch = record { number = 0; phase = LifecyclePhase.active; cancelled = false }

-- A fence is its epoch, its permit and its own token.
pub record OperationFence : Type 0 where
  pub epoch : ℕ
  pub permit : CommitPermitState
  pub cancelled : Bool

abbrev pub is_draining : LifecyclePhase → Bool
is_draining LifecyclePhase.active = false
is_draining LifecyclePhase.draining = true

abbrev pub is_active : CommitPermitState → Bool
is_active CommitPermitState.active = true
is_active _ = false

unfoldable pub issue : LifecycleEpoch → Result OperationFence CommitRejection
issue l =
    if is_draining l.phase
    then err CommitRejection.draining
    else ok
        (record { epoch = l.number; permit = CommitPermitState.active; cancelled = l.cancelled })

-- The epoch number is a u64, and `checked_add` panics past its end: one drain per daemon, so the
-- number is 0 or 1.
unfoldable pub begin_drain : LifecycleEpoch → LifecycleEpoch × ℕ
begin_drain l = if is_draining l.phase then (l, l.number) else (
  record { number = l.number + 1; phase = LifecyclePhase.draining; cancelled = true },
  l.number + 1,
)

-- `cancellation().is_cancelled()`: the fence's own token, or the lifecycle's above it.
unfoldable pub is_cancelled : LifecycleEpoch → OperationFence → Bool
is_cancelled l f = f.cancelled || l.cancelled

try_revoke_at : CommitPermitState → OperationFence → OperationFence × RevokeOutcome
try_revoke_at CommitPermitState.active f =
    (record f { permit = CommitPermitState.revoked; cancelled = true }, RevokeOutcome.revoked)
try_revoke_at CommitPermitState.revoked f = (f, RevokeOutcome.already_revoked)
try_revoke_at CommitPermitState.committing f = (f, RevokeOutcome.finalized)
try_revoke_at CommitPermitState.finalized f = (f, RevokeOutcome.finalized)

unfoldable pub try_revoke : OperationFence → OperationFence × RevokeOutcome
unfolding try_revoke_at
try_revoke f = try_revoke_at f.permit f

unfoldable pub complete : OperationFence → OperationFence
complete f = if is_active f.permit then record f { permit = CommitPermitState.finalized } else f

-- The checks that `commit` and `begin_final_commit` share, in their order.
unfoldable pub admit : LifecycleEpoch → OperationFence → Result (Unit {0}) CommitRejection
admit l f =
    if not (l.number == f.epoch)
    then err CommitRejection.stale_epoch
    else if is_draining l.phase
    then err CommitRejection.draining
    else if not (is_active f.permit)
    then err CommitRejection.revoked
    else ok tt

-- `commit` runs the action on the state under the locks, and leaves the permit active.
unfoldable pub commit {ℓ κ} :
    {S : Type ℓ} {T : Type κ}
    → LifecycleEpoch
    → OperationFence
    → (S → S × T)
    → S
    → S × Result T CommitRejection
unfolding admit
commit l f action s = elim (admit l f) [
  | ok _ ↦ let (s', t) = action s in (s', ok t)
  | err e ↦ (s, err e)
]

-- A guard is held while the permit says `committing`.
unfoldable pub begin_final_commit :
    LifecycleEpoch → OperationFence → OperationFence × Result (Unit {0}) CommitRejection
unfolding admit
begin_final_commit l f = elim (admit l f) [
  | ok _ ↦ (record f { permit = CommitPermitState.committing }, ok tt)
  | err e ↦ (f, err e)
]

-- `FinalCommitGuard::commit`: the action, then the permit is final.
unfoldable pub guard_commit {ℓ κ} :
    {S : Type ℓ} {T : Type κ} → OperationFence → (S → S × T) → S → OperationFence × S × T
guard_commit f action s =
    let (s', t) = action s in (record f { permit = CommitPermitState.finalized }, s', t)

drop_guard_at : CommitPermitState → OperationFence → OperationFence
drop_guard_at CommitPermitState.committing f = record f {
  permit = CommitPermitState.revoked;
  cancelled = true;
}
drop_guard_at _ f = f

-- A guard that is dropped without a commit.
unfoldable pub drop_guard : OperationFence → OperationFence
unfolding drop_guard_at
drop_guard f = drop_guard_at f.permit f

unfoldable pub commit_final {ℓ κ} :
    {S : Type ℓ} {T : Type κ}
    → LifecycleEpoch
    → OperationFence
    → (S → S × T)
    → S
    → OperationFence × S × Result T CommitRejection
unfolding begin_final_commit guard_commit
commit_final l f action s =
    let (g, begun) = begin_final_commit l f in
    elim begun [
      | ok _ ↦ let (h, s', t) = guard_commit g action s in (h, s', ok t)
      | err e ↦ (g, s, err e)
    ]
