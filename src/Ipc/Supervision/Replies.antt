-- ===== src/Ipc/Supervision/Replies.antt =====
-- What a reply says of a mutation, and when that is true of its fence.
use cadder.Base.{
  ℕ, suc, ◌≤◌, String, ◌≡◌, ◌≢◌, refl, ◌∙◌, subst, Bool, true, false, not, none, List, [], ◌∷◌,
  Result, ok, err, any, arith, if-elim, if◌then◌else◌, inl,
}
use cadder.Fence.{
  CommitPermitState, RevokeOutcome, OperationFence, initial_epoch, issue, try_revoke,
}
use cadder.Fence.Histories.{Race, Call, revoke, step, run, PermitFits, run-IsSpent}
use cadder.Ipc.Control.{ConnectionAction, ConcurrentRead}
use cadder.Ipc.Supervision.{Reply, Meeting, Said, closes, after_write, send, pipe, after_result}

-- The replies that say that the mutation did not come to an end in time, or did not start.
abbrev pub denies : {R : Type 0} → Reply R → Bool
denies Reply.timed_out = true
denies Reply.refused = true
denies Reply.unfinished = true
denies _ = false

abbrev pub is_answer : {R : Type 0} → Reply R → Bool
is_answer (Reply.pipelined id) = false
is_answer _ = true

-- How many replies answer the request itself.
abbrev pub answers : {R : Type 0} → List (Reply R) → ℕ
answers [] = 0
answers (reply ∷ replies) = if is_answer reply then suc (answers replies) else answers replies

-- The state of the fence fits; a client that is denied is denied a revoked operation; and it is
-- answered once, unless the connection failed or the operation was revoked.
abbrev pub IsHonest : {R : Type 0} → Race × Said R → Type 0
IsHonest (r, said) =
    PermitFits r.fence.permit r
    × (any denies said.replies ≡ true → r.fence.permit ≡ CommitPermitState.revoked)
    × (answers said.replies ≤ 1)
    × ((a : ConnectionAction)
        → said.action ≡ ok a
        → r.fence.permit ≢ CommitPermitState.revoked
        → answers said.replies ≡ 1)

abbrev pub IsQuiet : {R : Type 0} → Said R → Type 0
IsQuiet said = (any denies said.replies ≡ false) × (answers said.replies ≡ 0)

pub revoke_told :
    (r : Race)
    → (try_revoke r.fence).1 ≢ RevokeOutcome.finalized
    → (step r revoke).fence.permit ≡ CommitPermitState.revoked
unfolding step try_revoke
revoke_told r h = ground (arith, h)

pub revoke_active :
    (r : Race)
    → r.fence.permit ≡ CommitPermitState.active
    → (step r revoke).fence.permit ≡ CommitPermitState.revoked
unfolding step try_revoke
revoke_active r h = ground (arith, h)

pub issued_active :
    (f : OperationFence) → issue initial_epoch ≡ ok f → f.permit ≡ CommitPermitState.active
unfolding issue
issued_active f h = ground (arith, h)

pub nothing_committed :
    (r : Race)
    → PermitFits r.fence.permit r
    → r.fence.permit ≡ CommitPermitState.revoked
    → r.effects ≡ 0
nothing_committed r fits h = (subst (λ p. PermitFits p r) h fits).1

-- A revoked operation has made no final commit, and makes none.
pub revoked_for_good :
    (r : Race) (later : List Call)
    → PermitFits r.fence.permit r
    → r.fence.permit ≡ CommitPermitState.revoked
    → (run r later).effects ≡ 0
revoked_for_good r later fits h =
    let (free, nothing) = subst (λ p. PermitFits p r) h fits in
    let (spent, same, plain) =
      run-IsSpent r later (free, inl (λ active. absurd (cc (h, active)))) in
    same ∙ nothing

module _ {R : Type 0} (m : Meeting R) where
  pub send-IsHonest :
      (r : Race) (reply : Reply R) (rest : Said R)
      → PermitFits r.fence.permit r
      → is_answer reply ≡ true
      → (denies reply ≡ true → r.fence.permit ≡ CommitPermitState.revoked)
      → IsQuiet rest
      → IsHonest (r, send m reply rest)
  send-IsHonest r reply rest fits answering told (quiet, unanswered) = by_write (m.write reply)
    where
      by_write : (w : Result (Unit {0}) String) → IsHonest (r, after_write m reply rest w)
      by_write (ok u) =
          let once : answers (reply ∷ rest.replies) ≡ 1 = ground (arith, answering, unanswered) in
          (fits, λ h. told (ground (arith, h, quiet)), ground (arith, once), λ a h n. once)
      by_write (err e) =
          let once : answers (reply ∷ []) ≡ 1 = ground (arith, answering) in
          (fits, λ h. told (ground (arith, h)), ground (arith, once), λ a h n. once)

  -- A reply that is not a denial may come after any call.
  pub said-IsHonest :
      (r : Race) (reply : Reply R) (rest : Said R)
      → PermitFits r.fence.permit r
      → is_answer reply ≡ true
      → denies reply ≡ false
      → IsQuiet rest
      → IsHonest (r, send m reply rest)
  said-IsHonest r reply rest fits answering silent quiet =
      send-IsHonest r reply rest fits answering (λ h. absurd (cc (h, silent))) quiet

  pub quiet-IsHonest :
      (r : Race) (rest : Said R)
      → PermitFits r.fence.permit r
      → IsQuiet rest
      → ((a : ConnectionAction) → rest.action ≡ ok a → r.fence.permit ≡ CommitPermitState.revoked)
      → IsHonest (r, rest)
  quiet-IsHonest r rest fits (quiet, unanswered) excused = (
    fits,
    λ h. absurd (cc (h, quiet)),
    ground (arith, unanswered),
    λ a h n. absurd (n (excused a h)),
  )

  send-IsQuiet :
      (reply : Reply R) (rest : Said R)
      → is_answer reply ≡ false
      → denies reply ≡ false
      → IsQuiet rest
      → IsQuiet (send m reply rest)
  send-IsQuiet reply rest other silent (quiet, unanswered) = by_write (m.write reply)
    where
      by_write : (w : Result (Unit {0}) String) → IsQuiet (after_write m reply rest w)
      by_write (ok u) = (ground (arith, silent, quiet), ground (arith, other, unanswered))
      by_write (err e) = (ground (arith, silent), ground (arith, other))

  pub pipe-IsQuiet : (c : ConcurrentRead) → IsQuiet (pipe m c)
  pipe-IsQuiet (ConcurrentRead.pipelined id) =
      send-IsQuiet (Reply.pipelined id) (closes m) refl refl (refl, refl)
  pipe-IsQuiet ConcurrentRead.closed = (refl, refl)

  pub after_result-IsQuiet : (wrote : Bool) → IsQuiet (after_result m wrote)
  after_result-IsQuiet wrote =
      if-elim IsQuiet (not wrote) (λ _. (refl, refl))
        λ _.
          if-elim IsQuiet (not m.read_more) (λ _. (refl, refl))
            λ _. send-IsQuiet (Reply.pipelined none) (closes m) refl refl (refl, refl)
