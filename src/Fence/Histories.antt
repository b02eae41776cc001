-- ===== src/Fence/Histories.antt =====
-- One operation's fence among the calls that other tasks make: a drain, a revocation by a deadline,
-- and the operation's own commits. `effects` counts the final commits that took effect, `checks` the
-- plain ones; `timed_out` says that a revocation was reported to have succeeded.
use cadder.Base.{
  ℕ, suc, ◌≡◌, refl, ◌≢◌, ◌≤◌, Bool, true, false, List, [], ◌∷◌, Result, ok, err, arith,
  if◌then◌else◌, ◌⊎◌, ◌∙◌,
}
use cadder.Fence.{
  CommitRejection, LifecyclePhase, CommitPermitState, RevokeOutcome, LifecycleEpoch, OperationFence,
  initial_epoch, issue, begin_drain, try_revoke, complete, commit, begin_final_commit, guard_commit,
  drop_guard,
}

pub record Race : Type 0 where
  pub lifecycle : LifecycleEpoch
  pub fence : OperationFence
  -- A guard of this fence is held.
  pub holding : Bool
  pub effects : ℕ
  pub checks : ℕ
  pub timed_out : Bool

pub data Call : Type 0 where
  drain revoke completes checkpoint begins finishes drops : Call

abbrev count : ℕ → ℕ × Unit {0}
count n = (suc n, tt)

abbrev reported : RevokeOutcome → Bool → Bool
reported RevokeOutcome.revoked b = true
reported _ b = b

abbrev is_ok : Result (Unit {0}) CommitRejection → Bool
is_ok (ok _) = true
is_ok (err _) = false

begin_call : Race → Race
begin_call r =
    let (f, begun) = begin_final_commit r.lifecycle r.fence in
    record r { fence = f; holding = is_ok begun }

finish_call : Race → Race
finish_call r =
    let (f, n, _) = guard_commit r.fence count r.effects in
    record r { fence = f; effects = n; holding = false }

unfoldable pub step : Race → Call → Race
unfolding begin_call finish_call
step r drain = record r { lifecycle = (begin_drain r.lifecycle).0 }
step r revoke =
    let (f, outcome) = try_revoke r.fence in
    record r { fence = f; timed_out = reported outcome r.timed_out }
step r completes = record r { fence = complete r.fence }
step r checkpoint = record r { checks = (commit r.lifecycle r.fence count r.checks).0 }
step r begins = if r.holding then r else begin_call r
step r finishes = if r.holding then finish_call r else r
step r drops = if r.holding then record r { fence = drop_guard r.fence; holding = false } else r

unfoldable pub run : Race → List Call → Race
run r [] = r
run r (c ∷ cs) = run (step r c) cs

abbrev pub start : OperationFence → Race
start f = record {
  lifecycle = initial_epoch;
  fence = f;
  holding = false;
  effects = 0;
  checks = 0;
  timed_out = false;
}

abbrev pub PermitFits : CommitPermitState → Race → Type 0
PermitFits CommitPermitState.active r =
    (r.holding ≡ false) × (r.effects ≡ 0) × (r.timed_out ≡ false)
PermitFits CommitPermitState.committing r =
    (r.holding ≡ true) × (r.effects ≡ 0) × (r.timed_out ≡ false)
PermitFits CommitPermitState.finalized r =
    (r.holding ≡ false) × (r.effects ≤ 1) × (r.timed_out ≡ false)
PermitFits CommitPermitState.revoked r = (r.holding ≡ false) × (r.effects ≡ 0)

pub step-PermitFits :
    (r : Race) (c : Call)
    → PermitFits r.fence.permit r
    → PermitFits (step r c).fence.permit (step r c)
unfolding step begin_drain try_revoke complete commit begin_final_commit guard_commit drop_guard
step-PermitFits r drain h = ground arith
step-PermitFits r revoke h = ground arith
step-PermitFits r completes h = ground arith
step-PermitFits r checkpoint h = ground arith
step-PermitFits r begins h = ground arith
step-PermitFits r finishes h = ground arith
step-PermitFits r drops h = ground arith

pub run-PermitFits :
    (r : Race) (cs : List Call)
    → PermitFits r.fence.permit r
    → PermitFits (run r cs).fence.permit (run r cs)
unfolding run
run-PermitFits r [] h = h
run-PermitFits r (c ∷ cs) h = run-PermitFits (step r c) cs (step-PermitFits r c h)

pub PermitFits-outcome :
    (r : Race)
    → PermitFits r.fence.permit r
    → (r.effects ≤ 1) × (r.timed_out ≡ true → r.effects ≡ 0)
PermitFits-outcome r h = ground arith

pub issue-start : (f : OperationFence) → issue initial_epoch ≡ ok f → PermitFits f.permit (start f)
unfolding issue
issue-start f e = ground arith

-- Whatever the other tasks do, an operation whose fence was issued by a fresh daemon has at most
-- one final commit, and none at all if a revocation was ever reported to have succeeded.
pub run-effects :
    (f : OperationFence) (cs : List Call)
    → issue initial_epoch ≡ ok f
    → ((run (start f) cs).effects ≤ 1)
      × ((run (start f) cs).timed_out ≡ true → (run (start f) cs).effects ≡ 0)
run-effects f cs e =
    PermitFits-outcome (run (start f) cs) (run-PermitFits (start f) cs (issue-start f e))

-- The operation can commit nothing more: no guard is held, and its permit is spent or the daemon
-- has left its epoch.
abbrev pub IsSpent : Race → Type 0
IsSpent r =
    (r.holding ≡ false)
    × ((r.fence.permit ≢ CommitPermitState.active)
        ⊎ (r.lifecycle.number ≢ r.fence.epoch)
        ⊎ (r.lifecycle.phase ≡ LifecyclePhase.draining))

step-IsSpent :
    (r : Race) (c : Call)
    → IsSpent r
    → IsSpent (step r c) × ((step r c).effects ≡ r.effects) × ((step r c).checks ≡ r.checks)
unfolding step begin_drain try_revoke complete commit begin_final_commit guard_commit drop_guard
step-IsSpent r drain h = ground arith
step-IsSpent r revoke h = ground arith
step-IsSpent r completes h = ground arith
step-IsSpent r checkpoint h = ground arith
step-IsSpent r begins h = ground arith
step-IsSpent r finishes h = ground arith
step-IsSpent r drops h = ground arith

-- Once the operation is spent, no later call makes a commit or a checkpoint of it take effect.
pub run-IsSpent :
    (r : Race) (cs : List Call)
    → IsSpent r
    → IsSpent (run r cs) × ((run r cs).effects ≡ r.effects) × ((run r cs).checks ≡ r.checks)
unfolding run
run-IsSpent r [] h = (h, refl, refl)
run-IsSpent r (c ∷ cs) h =
    let (spent, same, plain) = step-IsSpent r c h in
    let (later, effects, checks) = run-IsSpent (step r c) cs spent in
    (later, effects ∙ same, checks ∙ plain)

-- A drain or a successful revocation spends an operation that holds no guard.
pub step_spends :
    (r : Race) (c : Call)
    → r.holding ≡ false
    → (c ≡ drain) ⊎ (c ≡ revoke)
    → r.fence.permit ≢ CommitPermitState.committing
    → IsSpent (step r c)
unfolding step begin_drain try_revoke
step_spends r c h e n = ground arith
