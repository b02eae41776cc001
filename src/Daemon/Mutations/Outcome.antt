-- ===== src/Daemon/Mutations/Outcome.antt =====
-- The two ways a mutation of the registrations ends: nothing has changed, or its edit is published.
use cadder.Base.{
  ◌∙◌, String, ◌≡◌, refl, ◌⊎◌, inl, inr, Bool, true, false, Result, ok, err, unwrap_or_else, sym,
  subst,
}
use cadder.Daemon.{DaemonState, Task, Env}
use cadder.Daemon.Interleaving.{meanwhile}
use cadder.Daemon.Candidates.{conclude}
use cadder.Daemon.Mutations.{admitted, with_fence}
use cadder.Daemon.Transaction.{
  RegistrationTransaction, RegistrationTransactionFailure, fenced, runtime, storage, Schedule,
  execute_registration_transaction,
}
use cadder.Daemon.Transaction.Ending.{IsPublished, IsGivenUp, execute_failed, execute_published}
use cadder.Daemon.Transaction.Preserve.{
  IsQuiet, Keeps-refl, IsQuiet-refl, IsQuiet-trans, meanwhile-IsQuiet,
}
use cadder.Daemon.Transaction.Undo.{IsSafe, IsSafe-of_quiet}
use cadder.Daemon.Transaction.Publish.{Fails, Fails-of_Keeps, Fails-between, Fails-weaken}
use cadder.Database.{commits_late}
use cadder.Fence.{CommitRejection, OperationFence, admit, issue}
use cadder.Registrations.{Registrations, merge_live_heartbeats}
use cadder.Registrations.Exclusive.{IsExclusive}
use cadder.Registrations.Heartbeats.{merge-IsExclusive, without_heartbeats}
use cadder.Runtime.{Runtime, Serving}

module _ {R : Runtime} (V : Serving R) (x : Env) where
  -- What a mutation may have tried to store: its edit of the earlier registrations up to heartbeat
  -- times, with heartbeats merged in.
  abbrev pub Attempts :
      (Registrations → Registrations → Type 0) → Registrations → Registrations → Type 0
  Attempts Edit m n =
      (before : Registrations) × (edited : Registrations) × (live : Registrations)
      × (without_heartbeats before ≡ without_heartbeats m)
      × Edit before edited
      × (without_heartbeats live ≡ without_heartbeats m)
      × (n ≡ merge_live_heartbeats edited live)

  -- The desired state is the earlier one, but for tables whose late commit was reported as an error;
  -- and so is what Caddy serves, unless the daemon is to shut down.
  abbrev pub IsUnchanged :
      (Registrations → Registrations → Type 0) → DaemonState R.State → DaemonState R.State → Type 0
  IsUnchanged Edit d d' =
      Fails (commits_late x.persist_fault) (Attempts Edit d.registrations) d d' × IsSafe V d d'

  -- The edit, which takes exclusive registrations to such, was made to the earlier registrations up
  -- to heartbeat times, and was published.
  pub record IsCommitted (Edit : Registrations → Registrations → Type 0)
      (d d' : DaemonState R.State) : Type 0 where
    pub transaction : RegistrationTransaction
    pub before : Task R.State
    pub after : Task R.State
    pub quiet : IsQuiet d before.state
    pub ends : after.state ≡ d'
    pub edited : Edit before.state.registrations transaction.registrations
    pub exclusive : IsExclusive before.state.registrations → IsExclusive transaction.registrations
    pub published : IsPublished V x transaction before after

  abbrev pub IsOutcome :
      (Registrations → Registrations → Type 0)
      → Bool
      → DaemonState R.State
      → DaemonState R.State
      → Type 0
  IsOutcome Edit accepted d d' =
      ((accepted ≡ false) × IsUnchanged Edit d d') ⊎ ((accepted ≡ true) × IsCommitted Edit d d')

  IsUnchanged-of_quiet :
      (Edit : Registrations → Registrations → Type 0) (a b c : DaemonState R.State)
      → IsQuiet a b
      → IsUnchanged Edit b c
      → IsUnchanged Edit a c
  IsUnchanged-of_quiet Edit a b c q (failed, safe) = (
    Fails-between q.keeps
        (Fails-weaken
          (λ n (before, edited, live, same, edit, beats, merged). (
            before,
            edited,
            live,
            same ∙ q.keeps.registrations,
            edit,
            beats ∙ q.keeps.registrations,
            merged,
          ))
          failed)
        (Keeps-refl c),
    IsSafe-of_quiet V a b c q safe,
  )

  IsUnchanged-refl :
      (Edit : Registrations → Registrations → Type 0) (d : DaemonState R.State)
      → IsUnchanged Edit d d
  IsUnchanged-refl Edit d = (Fails-of_Keeps (Keeps-refl d), inl refl)

  -- Exclusive registrations stay exclusive.
  pub IsOutcome-IsExclusive :
      (Edit : Registrations → Registrations → Type 0) (accepted : Bool) (d d' : DaemonState R.State)
      → IsOutcome Edit accepted d d'
      → IsExclusive d.registrations
      → IsExclusive d'.registrations
  IsOutcome-IsExclusive Edit accepted d d' (inl (denied, same)) e = same.0.kept.exclusive e
  IsOutcome-IsExclusive Edit accepted d d' (inr (granted, w)) e =
      let (live, same, merged) = w.published.registrations in
      subst (λ (z : DaemonState R.State). IsExclusive z.registrations) w.ends
        (subst IsExclusive (sym merged) (
          merge-IsExclusive w.transaction.registrations live
            (w.exclusive (w.quiet.keeps.exclusive e))))

  module _ {ℓ} {A : Type ℓ} (acc : A → Bool) (Edit : Registrations → Registrations → Type 0) where
    -- The outcome of a mutation with a fence: a rejection changes nothing.
    unfoldable pub IsEndOf : DaemonState R.State → Task R.State × Result A CommitRejection → Type 0
    IsEndOf d (t, err e) = IsUnchanged Edit d t.state
    IsEndOf d (t, ok a) = IsOutcome Edit (acc a) d t.state

    pub IsEndOf-quiet :
        (a b : DaemonState R.State) (p : Task R.State × Result A CommitRejection)
        → IsQuiet a b
        → IsEndOf b p
        → IsEndOf a p
    unfolding IsEndOf
    IsEndOf-quiet a b (t, err e) q h = IsUnchanged-of_quiet Edit a b t.state q h
    IsEndOf-quiet a b (t, ok v) q (inl (denied, same)) =
        inl (denied, IsUnchanged-of_quiet Edit a b t.state q same)
    IsEndOf-quiet a b (t, ok v) q (inr (granted, w)) = inr (
      granted,
      record {
        transaction = w.transaction;
        before = w.before;
        after = w.after;
        quiet = IsQuiet-trans q w.quiet;
        ends = w.ends;
        edited = w.edited;
        exclusive = w.exclusive;
        published = w.published;
      },
    )

    -- A refusal that touches nothing.
    pub refused-IsEndOf : (a : A) (t : Task R.State) → acc a ≡ false → IsEndOf t.state (t, ok a)
    unfolding IsEndOf
    refused-IsEndOf a t denied = inl (denied, IsUnchanged-refl Edit t.state)

    pub conclude-IsEndOf :
        (success : A) (on_runtime on_storage : String → A) (es : Schedule)
        (c : RegistrationTransaction) (t : Task R.State)
        → acc success ≡ true
        → ((e : String) → acc (on_runtime e) ≡ false)
        → ((e : String) → acc (on_storage e) ≡ false)
        → Edit t.state.registrations c.registrations
        → (IsExclusive t.state.registrations → IsExclusive c.registrations)
        → IsEndOf t.state
            (conclude R success on_runtime on_storage (execute_registration_transaction R x es c t))
    unfolding IsEndOf
    conclude-IsEndOf success on_runtime on_storage es c t granted no_run no_store edited exclusive =
        by_result (execute_registration_transaction R x es c t) refl
      where
        attempted :
            (t' : Task R.State)
            → IsGivenUp V x c t.state t'.state
            → IsUnchanged Edit t.state t'.state
        attempted t' (failed, safe) = (
          Fails-weaken
              (λ n (live, beats, merged).
                (t.state.registrations, c.registrations, live, refl, edited, beats, merged))
              failed,
          safe,
        )

        by_result :
            (p : Task R.State × Result (Unit {0}) RegistrationTransactionFailure)
            → execute_registration_transaction R x es c t ≡ p
            → IsEndOf t.state (conclude R success on_runtime on_storage p)
        by_result (t', ok u) h = inr (
          granted,
          record {
            transaction = c;
            before = t;
            after = t';
            quiet = IsQuiet-refl t.state;
            ends = refl;
            edited = edited;
            exclusive = exclusive;
            published = execute_published V x es c t t' u h;
          },
        )
        by_result (t', err (fenced e)) h = attempted t' (execute_failed V x es c t t' (fenced e) h)
        by_result (t', err (runtime e)) h =
            inl (no_run e, attempted t' (execute_failed V x es c t t' (runtime e) h))
        by_result (t', err (storage e)) h =
            inl (no_store e, attempted t' (execute_failed V x es c t t' (storage e) h))

    pub admitted-IsEndOf :
        (es : Schedule) (body : Task R.State → Task R.State × Result A CommitRejection)
        (t : Task R.State)
        → ((s : Task R.State) → IsEndOf s.state (body s))
        → IsEndOf t.state (admitted R es body t)
    unfolding IsEndOf
    admitted-IsEndOf es body t step =
        IsEndOf-quiet t.state arrived.state (chosen (admit arrived.state.lifecycle arrived.fence))
          (meanwhile-IsQuiet es.arriving t) (by_admit (admit arrived.state.lifecycle arrived.fence))
      where
        arrived : Task R.State
        arrived = meanwhile es.arriving t

        chosen : Result (Unit {0}) CommitRejection → Task R.State × Result A CommitRejection
        chosen (err e) = (arrived, err e)
        chosen (ok u) = body arrived

        by_admit : (o : Result (Unit {0}) CommitRejection) → IsEndOf arrived.state (chosen o)
        by_admit (err e) = IsUnchanged-refl Edit arrived.state
        by_admit (ok u) = step arrived

    -- The mutation with its own fence.
    pub with_fence-IsOutcome :
        (rejected : CommitRejection → A)
        (body : Task R.State → Task R.State × Result A CommitRejection) (d : DaemonState R.State)
        → ((e : CommitRejection) → acc (rejected e) ≡ false)
        → ((t : Task R.State) → IsEndOf t.state (body t))
        → IsOutcome Edit (acc (with_fence R rejected body d).1) d (with_fence R rejected body d).0
    unfolding IsEndOf
    with_fence-IsOutcome rejected body d denied step = by_issue (issue d.lifecycle)
      where
        answered :
            (p : Task R.State × Result A CommitRejection)
            → IsEndOf d p
            → IsOutcome Edit (acc (unwrap_or_else p.1 rejected)) d p.0.state
        answered (t, err e) h = inl (denied e, h)
        answered (t, ok a) h = h

        chosen : Result OperationFence CommitRejection → DaemonState R.State × A
        chosen (err e) = (d, rejected e)
        chosen (ok f) = (
          (body (record { state = d; fence = f })).0.state,
          unwrap_or_else (body (record { state = d; fence = f })).1 rejected,
        )

        by_issue :
            (o : Result OperationFence CommitRejection)
            → IsOutcome Edit (acc (chosen o).1) d (chosen o).0
        by_issue (err e) = inl (denied e, IsUnchanged-refl Edit d)
        by_issue (ok f) =
            answered (body (record { state = d; fence = f }))
              (step (record { state = d; fence = f }))
