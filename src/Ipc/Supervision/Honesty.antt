-- ===== src/Ipc/Supervision/Honesty.antt =====
-- What a client is told about a mutation is true.
use cadder.Base.{
  ◌≤◌, ◌≡◌, ◌≢◌, refl, Bool, true, false, not, ◌&&◌, List, Result, ok, err, any, if-elim,
  Bool-cases, inl, inr,
}
use cadder.Fence.{
  CommitPermitState, RevokeOutcome, OperationFence, initial_epoch, issue, try_revoke,
}
use cadder.Fence.Histories.{
  Race, Call, revoke, completes, step, run, start, PermitFits, step-PermitFits, run-PermitFits,
  issue-start,
}
use cadder.Ipc.Control.{ConnectionAction}
use cadder.Ipc.Supervision.{
  Reply, Selected, First, Meeting, Said, WorkerResult, ends, closes, send, pipe, unwrapped,
  await_worker, late_result, write_owned_mutation_result, shutting_at, timing_out_at, select,
  after_result, supervise_worker, supervise_decoded, supervise_as, supervise_owned_mutation_request,
}
use cadder.Protocol.Errors.{ProtocolError}
use cadder.Ipc.Supervision.Replies.{
  denies, answers, IsHonest, IsQuiet, revoke_told, revoke_active, issued_active, nothing_committed,
  revoked_for_good, send-IsHonest, said-IsHonest, quiet-IsHonest, pipe-IsQuiet,
  after_result-IsQuiet,
}

module _ {R : Type 0} (m : Meeting R) where
  unwrapped-IsHonest :
      (w : WorkerResult R) (k : R → Race × Said R) (r : Race)
      → PermitFits r.fence.permit r
      → ((v : R) → IsHonest (k v))
      → IsHonest (unwrapped m w k r)
  unwrapped-IsHonest (err e) k r fits h =
      quiet-IsHonest m r (unwrapped m (err e) k r).1 fits (refl, refl) (λ a h. absurd (cc h))
  unwrapped-IsHonest (ok (err e)) k r fits h =
      quiet-IsHonest m r (unwrapped m (ok (err e)) k r).1 fits (refl, refl) (λ a h. absurd (cc h))
  unwrapped-IsHonest (ok (ok v)) k r fits h = h v

  await_worker-IsHonest :
      (rest : Said R) (r : Race)
      → PermitFits r.fence.permit r
      → IsQuiet rest
      → IsHonest (await_worker m rest r)
  await_worker-IsHonest rest r fits quiet =
      let later = run r m.until_worker in
      let still = run-PermitFits r m.until_worker fits in
      unwrapped-IsHonest m.awaited (λ v. (later, send m (Reply.response v) rest)) later still
        (λ v. said-IsHonest m later (Reply.response v) rest still refl refl quiet)

  late_result-IsHonest :
      (v : R) (k : Bool → Said R) (r : Race) (o : RevokeOutcome)
      → PermitFits r.fence.permit r
      → (o ≢ RevokeOutcome.finalized → r.fence.permit ≡ CommitPermitState.revoked)
      → ((wrote : Bool) → IsQuiet (k wrote))
      → IsHonest (r, late_result m v k o)
  unfolding late_result
  late_result-IsHonest v k r RevokeOutcome.finalized fits told quiet =
      said-IsHonest m r (Reply.response v) (k true) fits refl refl (quiet true)
  late_result-IsHonest v k r RevokeOutcome.revoked fits told quiet =
      send-IsHonest m r Reply.timed_out (k false) fits refl (λ _. told (λ h. absurd (cc h)))
        (quiet false)
  late_result-IsHonest v k r RevokeOutcome.already_revoked fits told quiet =
      quiet-IsHonest m r (k false) fits (quiet false) (λ a h. told (λ e. absurd (cc e)))

  write-IsHonest :
      (v : R) (k : Bool → Said R) (r : Race)
      → PermitFits r.fence.permit r
      → ((wrote : Bool) → IsQuiet (k wrote))
      → IsHonest (write_owned_mutation_result m v k r)
  unfolding write_owned_mutation_result
  write-IsHonest v k r fits quiet =
      if-elim IsHonest m.in_time
        (λ _.
          said-IsHonest m (step r completes) (Reply.response v) (k true)
            (step-PermitFits r completes fits) refl refl (quiet true))
        (λ _.
          late_result-IsHonest v k (step r revoke) (try_revoke r.fence).1
            (step-PermitFits r revoke fits) (revoke_told r) quiet)

  shutting_at-IsHonest :
      (r : Race) (o : RevokeOutcome)
      → PermitFits r.fence.permit r
      → (o ≢ RevokeOutcome.finalized → r.fence.permit ≡ CommitPermitState.revoked)
      → IsHonest (shutting_at m r o)
  unfolding shutting_at
  shutting_at-IsHonest r RevokeOutcome.finalized fits told =
      await_worker-IsHonest (closes m) r fits (refl, refl)
  shutting_at-IsHonest r RevokeOutcome.revoked fits told =
      send-IsHonest m r Reply.unfinished (closes m) fits refl (λ _. told (λ h. absurd (cc h)))
        (refl, refl)
  shutting_at-IsHonest r RevokeOutcome.already_revoked fits told =
      send-IsHonest m r Reply.unfinished (closes m) fits refl (λ _. told (λ h. absurd (cc h)))
        (refl, refl)

  timing_out_at-IsHonest :
      (rest : Said R) (r : Race) (o : RevokeOutcome)
      → PermitFits r.fence.permit r
      → (o ≢ RevokeOutcome.finalized → r.fence.permit ≡ CommitPermitState.revoked)
      → IsQuiet rest
      → IsHonest (timing_out_at m rest r o)
  unfolding timing_out_at
  timing_out_at-IsHonest rest r RevokeOutcome.finalized fits told quiet =
      await_worker-IsHonest rest r fits quiet
  timing_out_at-IsHonest rest r RevokeOutcome.revoked fits told quiet =
      send-IsHonest m r Reply.timed_out rest fits refl (λ _. told (λ h. absurd (cc h))) quiet
  timing_out_at-IsHonest rest r RevokeOutcome.already_revoked fits told quiet =
      quiet-IsHonest m r rest fits quiet (λ a h. told (λ e. absurd (cc e)))

  select-IsHonest :
      (after : Bool → Said R) (rest : Said R) (s : Selected R) (r : Race)
      → PermitFits r.fence.permit r
      → ((wrote : Bool) → IsQuiet (after wrote))
      → IsQuiet rest
      → IsHonest (select m after rest s r)
  unfolding select
  select-IsHonest after rest (Selected.worker w) r fits quiet_after quiet =
      unwrapped-IsHonest w (λ v. write_owned_mutation_result m v after r) r fits
        (λ v. write-IsHonest v after r fits quiet_after)
  select-IsHonest after rest Selected.shutting_down r fits quiet_after quiet =
      shutting_at-IsHonest (step r revoke) (try_revoke r.fence).1 (step-PermitFits r revoke fits)
        (revoke_told r)
  select-IsHonest after rest Selected.cancelled r fits quiet_after quiet =
      await_worker-IsHonest rest r fits quiet
  select-IsHonest after rest Selected.timeout r fits quiet_after quiet =
      timing_out_at-IsHonest rest (step r revoke) (try_revoke r.fence).1
        (step-PermitFits r revoke fits) (revoke_told r) quiet

  supervise_worker-IsHonest :
      (f : First R) (r : Race) → PermitFits r.fence.permit r → IsHonest (supervise_worker m f r)
  unfolding supervise_worker
  supervise_worker-IsHonest (First.selected s) r fits =
      select-IsHonest (after_result m) (closes m) s r fits (after_result-IsQuiet m) (refl, refl)
  supervise_worker-IsHonest (First.reader c) r fits =
      select-IsHonest (λ _. pipe m c) (pipe m c) m.next (run r m.until_next)
        (run-PermitFits r m.until_next fits) (λ _. pipe-IsQuiet m c) (pipe-IsQuiet m c)

  supervise-IsHonest :
      (r : Race)
      → PermitFits r.fence.permit r
      → r.fence.permit ≡ CommitPermitState.active
      → IsHonest (supervise_owned_mutation_request m r)
  unfolding supervise_owned_mutation_request supervise_as supervise_decoded
  supervise-IsHonest r fits active = by_payload m.decoded
    where
      by_payload : (d : Result (Unit {0}) ProtocolError) → IsHonest (supervise_as m d r)
      by_payload (err e) =
          said-IsHonest m r (Reply.undecoded e) (ends m (ok ConnectionAction.continue)) fits refl
            refl (refl, refl)
      by_payload (ok u) =
          if-elim IsHonest (not (m.guarded && m.spawned))
            (λ _.
              send-IsHonest m (step r revoke) Reply.refused (closes m)
                (step-PermitFits r revoke fits) refl (λ _. revoke_active r active) (refl, refl))
            (λ _.
              supervise_worker-IsHonest m.first (run r m.until_first)
                (run-PermitFits r m.until_first fits))

-- If the client is told that the mutation timed out, did not complete because of the shutdown, or was
-- not taken on, then it made no final commit, and whatever calls come later, it makes none.
pub supervise_denied :
    {R : Type 0} (m : Meeting R) (f : OperationFence) (later : List Call)
    → issue initial_epoch ≡ ok f
    → any denies (supervise_owned_mutation_request m (start f)).1.replies ≡ true
    → (run (supervise_owned_mutation_request m (start f)).0 later).effects ≡ 0
supervise_denied m f later issued told =
    let fits = issue-start f issued in
    let honest = supervise-IsHonest m (start f) fits (issued_active f issued) in
    revoked_for_good (supervise_owned_mutation_request m (start f)).0 later honest.0 (honest.1 told)

-- The client is answered at most once. If the supervision ends without an error after a final commit
-- took effect, the client is answered exactly once, and is not told that the mutation failed.
pub supervise_answers :
    {R : Type 0} (m : Meeting R) (f : OperationFence)
    → issue initial_epoch ≡ ok f
    → let (r, said) = supervise_owned_mutation_request m (start f) in
      (answers said.replies ≤ 1)
      × ((a : ConnectionAction)
          → said.action ≡ ok a
          → r.effects ≢ 0
          → (answers said.replies ≡ 1) × (any denies said.replies ≡ false))
supervise_answers m f issued =
    let (fits, denied, once, answered) =
      supervise-IsHonest m (start f) (issue-start f issued) (issued_active f issued) in
    (
      once,
      λ a h took. (
        answered a h (λ revoked.
            took (nothing_committed (supervise_owned_mutation_request m (start f)).0 fits revoked)),
        elim (Bool-cases (any denies (supervise_owned_mutation_request m (start f)).1.replies)) [
          | inl told ↦ absurd (
              took (
                nothing_committed (supervise_owned_mutation_request m (start f)).0 fits
                  (denied told)))
          | inr silent ↦ silent
        ],
      ),
    )
