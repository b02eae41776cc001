-- ===== src/Daemon/Transaction/Ending.antt =====
-- How a registration transaction ends: published whole, or undone whole.
use cadder.Base.{◌≡◌, ◌⊎◌, inl, inr, Option, Result, ok, err, ◌∙◌, ap, sym, subst}
use cadder.Base.Dict.{values}
use cadder.Caddy.Coordinator.{Coordinator, CaddyApplyAction, begin_apply}
use cadder.Daemon.{DaemonState, Task, Env}
use cadder.Daemon.Interleaving.{meanwhile}
use cadder.Daemon.Transaction.{
  RegistrationTransaction, RegistrationTransactionFailure, Schedule, machine,
  RuntimeTransitionReceipt, rollback_runtime_transition, transition, apply_runtime_transition,
  accept_in, publish, undo, execute_registration_transaction,
}
use cadder.Daemon.Transaction.Preserve.{IsQuiet, Keeps-trans, meanwhile-IsQuiet}
use cadder.Daemon.Transaction.Publish.{
  IsStored, Fails, Fails-of_Keeps, Fails-between, Fails-weaken, IsEnded, merged, publish-IsEnded,
}
use cadder.Database.{commits_late}
use cadder.Daemon.Transaction.Receipts.{IsHeld, IsReady, ready, IsHeld-by, rollback_held}
use cadder.Daemon.Transaction.Undo.{IsSafe, IsSafe-of_quiet, IsBegun}
use cadder.Daemon.Transaction.Transitions.{finished, target_of, transition-IsBegun}
use cadder.Fence.{CommitPermitState}
use cadder.Registrations.{Registrations, merge_live_heartbeats}
use cadder.Registrations.Heartbeats.{without_heartbeats}
use cadder.Runtime.{Runtime, Serving}

module _ {R : Runtime} (V : Serving R) (x : Env) where
  abbrev action_of : RegistrationTransaction → CaddyApplyAction
  action_of c = (begin_apply x.externals x.attempted_at (values c.registrations) c.coordinator).1

  abbrev begun_coordinator : RegistrationTransaction → Coordinator
  begun_coordinator c =
      (begin_apply x.externals x.attempted_at (values c.registrations) c.coordinator).0

  -- The candidate is the daemon's state, in the tables, and what Caddy serves.
  pub record IsPublished (c : RegistrationTransaction) (t t' : Task R.State) : Type 0 where
    pub final : t'.fence.permit ≡ CommitPermitState.finalized
    pub registrations :
        (live : Registrations) × (without_heartbeats live
          ≡ without_heartbeats t.state.registrations)
        × (t'.state.registrations ≡ merge_live_heartbeats c.registrations live)
    pub coordinator :
        t'.state.coordinator
        ≡ finished x
            (begin_apply x.externals x.attempted_at (values c.registrations) c.coordinator).1
            (begin_apply x.externals x.attempted_at (values c.registrations) c.coordinator).0
    pub stored : IsStored t'.state.registrations t.state.database t'.state.database
    pub serves :
        V.serving t'.state.runtime
        ≡ target_of
            (begin_apply x.externals x.attempted_at (values c.registrations) c.coordinator).1
            (V.serving t.state.runtime)

  -- What the transaction may have tried to store: its candidate with heartbeats merged in.
  abbrev pub Candidates : RegistrationTransaction → Registrations → Registrations → Type 0
  Candidates c before m =
      (live : Registrations) × (without_heartbeats live ≡ without_heartbeats before)
      × (m ≡ merge_live_heartbeats c.registrations live)

  abbrev pub IsGivenUp :
      RegistrationTransaction → DaemonState R.State → DaemonState R.State → Type 0
  IsGivenUp c d d' =
      Fails (commits_late x.persist_fault) (Candidates c d.registrations) d d' × IsSafe V d d'

  IsTransacted :
      RegistrationTransaction
      → Task R.State
      → Task R.State × Result (Unit {0}) RegistrationTransactionFailure
      → Type 0
  IsTransacted c t (t', err e) = IsGivenUp c t.state t'.state
  IsTransacted c t (t', ok _) = IsPublished c t t'

  module _ (es : Schedule) (c : RegistrationTransaction) (t : Task R.State) where
    composed : Task R.State
    composed = meanwhile es.composing t

    composed-IsQuiet : IsQuiet t.state composed.state
    unfolding composed
    composed-IsQuiet = meanwhile-IsQuiet es.composing t

    module _ (d : DaemonState R.State) (k : Coordinator) (r : Option (RuntimeTransitionReceipt R))
        (w : IsReady V x composed.state
          (target_of (action_of c) (V.serving composed.state.runtime))
          (finished x (action_of c) (begun_coordinator c))
          d
          k
          r) where
      applied_task : Task R.State
      applied_task = meanwhile es.applying (record composed { state = d })

      applied-IsQuiet : IsQuiet d applied_task.state
      unfolding applied_task
      applied-IsQuiet = meanwhile-IsQuiet es.applying (record composed { state = d })

      live :
          without_heartbeats applied_task.state.registrations
          ≡ without_heartbeats t.state.registrations
      live =
          applied-IsQuiet.keeps.registrations ∙ w.keeps.registrations
          ∙ composed-IsQuiet.keeps.registrations

      -- The state before the rollback of what was not published.
      undone-IsTransacted :
          (t₃ : Task R.State) (e : RegistrationTransactionFailure)
          → IsEnded x r
              (merged (record c { coordinator = k }) applied_task)
              applied_task.state
              (t₃, err e)
          → IsTransacted c t (undo R x es.undoing r (t₃, err e))
      unfolding IsEnded undo IsTransacted
      undone-IsTransacted t₃ e (kept, down, at) =
          let q = meanwhile-IsQuiet es.undoing t₃ in
          let (safe, after) =
            rollback_held V x composed.state (meanwhile es.undoing t₃).state r
              (held_at at q.runtime) in
          (
            Fails-between
                (Keeps-trans composed-IsQuiet.keeps (Keeps-trans w.keeps applied-IsQuiet.keeps))
                (Fails-weaken (λ m same. (applied_task.state.registrations, live, same)) kept)
                (Keeps-trans q.keeps after),
            IsSafe-of_quiet V t.state composed.state
                (rollback_runtime_transition R x r (meanwhile es.undoing t₃).state) composed-IsQuiet
                safe,
          )
        where
          held_at :
              ((t₃.state.runtime ≡ applied_task.state.runtime)
                ⊎ (t₃.state.runtime ≡ (accept_in R x r applied_task.state).0.runtime))
              → (meanwhile es.undoing t₃).state.runtime ≡ t₃.state.runtime
              → IsHeld V x composed.state r (machine (meanwhile es.undoing t₃).state)
          held_at (inl same) q =
              IsHeld-by V x composed.state r d (meanwhile es.undoing t₃).state w.held
                (q ∙ same ∙ applied-IsQuiet.runtime)
          held_at (inr same) q =
              IsHeld-by V x composed.state r (accept_in R x r applied_task.state).0
                (meanwhile es.undoing t₃).state
                (w.held_later applied_task.state applied-IsQuiet.runtime) (q ∙ same)

      published-IsTransacted :
          (t₃ : Task R.State)
          → IsEnded x r
              (merged (record c { coordinator = k }) applied_task)
              applied_task.state
              (t₃, ok tt)
          → IsTransacted c t (undo R x es.undoing r (t₃, ok tt))
      unfolding IsEnded undo IsTransacted
      published-IsTransacted t₃ (final, down, regs, coord, stored, run, good) = record {
        final = final;
        registrations = (applied_task.state.registrations, live, regs);
        coordinator = coord ∙ w.coordinator;
        stored =
            subst (λ o. IsStored t₃.state.registrations o t₃.state.database)
              (applied-IsQuiet.keeps.database ∙ w.keeps.database ∙ composed-IsQuiet.keeps.database)
              (subst (λ m. IsStored m applied_task.state.database t₃.state.database) (sym regs)
                stored);
        serves =
            ap V.serving run
            ∙ w.serves applied_task.state applied-IsQuiet.runtime good
            ∙ ap (λ s. target_of (action_of c) (V.serving s)) composed-IsQuiet.runtime;
      }

      ended-IsTransacted :
          (p : Task R.State × Result (Unit {0}) RegistrationTransactionFailure)
          → IsEnded x r (merged (record c { coordinator = k }) applied_task) applied_task.state p
          → IsTransacted c t (undo R x es.undoing r p)
      ended-IsTransacted (t₃, ok u) h = published-IsTransacted t₃ h
      ended-IsTransacted (t₃, err e) h = undone-IsTransacted t₃ e h

    execute-IsTransacted : IsTransacted c t (execute_registration_transaction R x es c t)
    unfolding execute_registration_transaction apply_runtime_transition IsTransacted applied_task
        IsBegun composed
    execute-IsTransacted =
        by_transition (transition R x (action_of c) composed (begun_coordinator c))
          (transition-IsBegun V x (action_of c) composed (begun_coordinator c))
      where
        by_transition :
            (p : DaemonState R.State
              × Result
                  (Coordinator × Option (RuntimeTransitionReceipt R))
                  RegistrationTransactionFailure)
            → IsBegun V x composed.state
                (target_of (action_of c) (V.serving composed.state.runtime))
                (finished x (action_of c) (begun_coordinator c))
                p
            → IsTransacted c t (elim p.1 [
              | err e ↦ (record composed { state = p.0 }, err e)
              | ok (coordinator, r) ↦ undo R x es.undoing r (
                  publish R x r
                    (record c { coordinator = coordinator })
                    (meanwhile es.applying (record composed { state = p.0 })))
            ])
        by_transition (d, err e) (kept, safe) = (
          Fails-of_Keeps (Keeps-trans composed-IsQuiet.keeps kept),
          IsSafe-of_quiet V t.state composed.state d composed-IsQuiet safe,
        )
        by_transition (d, ok (k, r)) begun =
            let w =
              ready V x composed.state (target_of (action_of c) (V.serving composed.state.runtime))
                (finished x (action_of c) (begun_coordinator c)) d k r begun in
            ended-IsTransacted d k r w
              (publish R x r (record c { coordinator = k }) (applied_task d k r w))
              (publish-IsEnded x r (record c { coordinator = k }) (applied_task d k r w))

    -- A transaction that fails, on whatever step, under whatever other tasks do, leaves the
    -- registrations as they were up to heartbeat times, and the coordinator and the exclusivity of
    -- domains as they were. The tables are as they were, unless the storage reports its deadline after
    -- it has committed, and then they may hold the candidate with the later heartbeats. Caddy serves what it served, unless the daemon's shutdown
    -- is requested, as a failed rollback does.
    pub execute_failed :
        (t' : Task R.State) (e : RegistrationTransactionFailure)
        → execute_registration_transaction R x es c t ≡ (t', err e)
        → IsGivenUp c t.state t'.state
    unfolding IsTransacted
    execute_failed t' e h = subst (IsTransacted c t) h execute-IsTransacted

    -- A transaction that succeeds, under whatever other tasks do, finalizes its fence. The
    -- registrations are the candidate's with the later heartbeats merged in, the tables hold them,
    -- the coordinator is as its action says, and Caddy serves what the action asks for: what it did
    -- when nothing is to change, nothing after a stop, else the rendered configuration.
    pub execute_published :
        (t' : Task R.State) (u : Unit {0})
        → execute_registration_transaction R x es c t ≡ (t', ok u)
        → IsPublished c t t'
    unfolding IsTransacted
    execute_published t' u h = subst (IsTransacted c t) h execute-IsTransacted
