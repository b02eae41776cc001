-- ===== src/Daemon/Transaction/Publish.antt =====
-- How a transaction ends: published whole, or undone whole.
use cadder.Base.{
  Bool, true, false, String, ◌≡◌, refl, ◌⊎◌, inl, inr, Option, none, some, Result, ok, err, ◌∙◌, ap,
  sym, subst,
}
use cadder.Base.Dict.{values}
use cadder.Daemon.{DaemonState, Task, Env}
use cadder.Daemon.Transaction.{
  RegistrationTransaction, RegistrationTransactionFailure, fenced, runtime, storage,
  publish_candidate, RuntimeTransitionReceipt, accept_in, persist, persist_in, guarded_publish,
  publish,
}
use cadder.Daemon.Transaction.Preserve.{Keeps, Keeps-refl, Keeps-trans}
use cadder.Database.{
  StorageFault, uncommitted, committed, commits_late, Tables, persist_all, persist_desired_state,
}
use cadder.Fence.{
  CommitRejection, CommitPermitState, OperationFence, begin_final_commit, guard_commit, drop_guard,
}
use cadder.Registrations.{Registrations, merge_live_heartbeats}
use cadder.Runtime.{Runtime}

-- The tables hold the registrations, if there is a database.
unfoldable pub IsStored : Registrations → Option Tables → Option Tables → Type 0
IsStored m none new = new ≡ none
IsStored m (some t) new = (t' : Tables) × (new ≡ some t') × (persist_all (values m) t ≡ ok t')

abbrev pub at_tables : {S : Type 0} → Option Tables → DaemonState S → DaemonState S
at_tables tables d = record d { database = tables }

-- The state is the earlier one as far as `Keeps` says, but for the tables: a storage fault that comes
-- after the commit leaves in them what was tried.
pub record Fails {S : Type 0} (late : Bool) (Tried : Registrations → Type 0) (d d' : DaemonState S)
    : Type 0 where
  pub kept : Keeps d (at_tables d.database d')
  pub tables :
      (d'.database ≡ d.database)
      ⊎ ((m : Registrations) × (late ≡ true) × Tried m × IsStored m d.database d'.database)

module _ {S : Type 0} where
  at_tables-Keeps :
      (o : Option Tables) {d d' : DaemonState S}
      → Keeps d d'
      → Keeps (at_tables o d) (at_tables o d')
  at_tables-Keeps o k = record {
    registrations = k.registrations;
    coordinator = k.coordinator;
    database = refl;
    exclusive = k.exclusive;
  }

module _ {S : Type 0} {late : Bool} {Tried : Registrations → Type 0} where
  pub Fails-of_Keeps : {d d' : DaemonState S} → Keeps d d' → Fails late Tried d d'
  Fails-of_Keeps k = record {
    kept = record {
      registrations = k.registrations;
      coordinator = k.coordinator;
      database = refl;
      exclusive = k.exclusive;
    };
    tables = inl k.database;
  }

  -- A failure between steps that keep the tables.
  pub Fails-between :
      {a b c d : DaemonState S}
      → Keeps a b
      → Fails late Tried b c
      → Keeps c d
      → Fails late Tried a d
  Fails-between {a} {b} {c} {d} p f q = record {
    kept =
        subst (λ o. Keeps a (at_tables o d)) p.database
          (Keeps-trans p (Keeps-trans f.kept (at_tables-Keeps b.database q)));
    tables = by_tables f.tables;
  }
    where
      by_tables :
          ((c.database ≡ b.database)
            ⊎ ((m : Registrations) × (late ≡ true) × Tried m × IsStored m b.database c.database))
          → (d.database ≡ a.database)
            ⊎ ((m : Registrations) × (late ≡ true) × Tried m × IsStored m a.database d.database)
      by_tables (inl e) = inl (q.database ∙ e ∙ p.database)
      by_tables (inr (m, l, tried, stored)) = inr (
        m,
        l,
        tried,
        subst (λ o. IsStored m o d.database) p.database
            (subst (IsStored m b.database) (sym q.database) stored),
      )

  pub Fails-weaken :
      {Other : Registrations → Type 0} {d d' : DaemonState S}
      → ((m : Registrations) → Tried m → Other m)
      → Fails late Tried d d'
      → Fails late Other d d'
  Fails-weaken {Other} {d} {d'} give f = record { kept = f.kept; tables = by_tables f.tables }
    where
      by_tables :
          ((d'.database ≡ d.database)
            ⊎ ((m : Registrations) × (late ≡ true) × Tried m × IsStored m d.database d'.database))
          → (d'.database ≡ d.database)
            ⊎ ((m : Registrations) × (late ≡ true) × Other m × IsStored m d.database d'.database)
      by_tables (inl e) = inl e
      by_tables (inr (m, l, tried, stored)) = inr (m, l, give m tried, stored)

module _ {S : Type 0} where
  -- Storage keeps all but the tables, and on an error these too, unless it comes after the commit.
  IsPersisted :
      Env → Registrations → DaemonState S → DaemonState S × Result (Unit {0}) String → Type 0
  IsPersisted x m d (d', err e) =
      (d' ≡ at_tables d'.database d)
      × ((d'.database ≡ d.database)
          ⊎ ((commits_late x.persist_fault ≡ true) × IsStored m d.database d'.database))
  IsPersisted x m d (d', ok _) =
      (d' ≡ record d { database = d'.database }) × IsStored m d.database d'.database

  abbrev with_tables :
      DaemonState S → Tables × Result (Unit {0}) String → DaemonState S × Result (Unit {0}) String
  with_tables d (t, result) = (record d { database = some t }, result)

  persist_in-IsPersisted :
      (x : Env) (m : Registrations) (o : Option Tables) (d : DaemonState S)
      → d.database ≡ o
      → IsPersisted x m d (persist_in x m o d)
  unfolding persist_in persist_desired_state IsPersisted IsStored
  persist_in-IsPersisted x m none d at = (refl, subst (λ o. IsStored m o d.database) (sym at) at)
  persist_in-IsPersisted x m (some t) d at = by_fault x.persist_fault refl
    where
      by_tables :
          (r : Result Tables String)
          → persist_all (values m) t ≡ r
          → IsPersisted x m d (with_tables d (elim r [ ok t' ↦ (t', ok tt) | err e ↦ (t, err e) ]))
      by_tables (err e) h = (refl, inl (sym at))
      by_tables (ok t') h = (refl, subst (λ o. IsStored m o (some t')) (sym at) (t', refl, h))

      by_late :
          (e : String) (r : Result Tables String)
          → commits_late x.persist_fault ≡ true
          → persist_all (values m) t ≡ r
          → IsPersisted x m d
              (with_tables d (elim r [ ok t' ↦ (t', err e) | err constraint ↦ (t, err e) ]))
      by_late e (err constraint) late h = (refl, inl (sym at))
      by_late e (ok t') late h =
          (refl, inr (late, subst (λ o. IsStored m o (some t')) (sym at) (t', refl, h)))

      by_fault :
          (f : Option StorageFault)
          → x.persist_fault ≡ f
          → IsPersisted x m d (with_tables d (persist_desired_state f (values m) t))
      by_fault (some (uncommitted e)) fault = (refl, inl (sym at))
      by_fault (some (committed e)) fault =
          by_late e (persist_all (values m) t) (ap commits_late fault) refl
      by_fault none fault = by_tables (persist_all (values m) t) refl

  persist-IsPersisted :
      (x : Env) (m : Registrations) (d : DaemonState S) → IsPersisted x m d (persist x m d)
  unfolding persist
  persist-IsPersisted x m d = persist_in-IsPersisted x m d.database d refl

  abbrev pub merged : RegistrationTransaction → Task S → RegistrationTransaction
  merged c t = record c {
    registrations = merge_live_heartbeats c.registrations t.state.registrations;
  }

module _ {R : Runtime} where
  accept-Keeps :
      (x : Env) (r : Option (RuntimeTransitionReceipt R)) (d : DaemonState R.State)
      → Keeps d (accept_in R x r d).0
        × ((accept_in R x r d).0.shutdown ≡ d.shutdown)
        × ((accept_in R x r d).0.database ≡ d.database)
  unfolding accept_in
  accept-Keeps x none d = (Keeps-refl d, refl, refl)
  accept-Keeps x (some r) d = (
    record { registrations = refl; coordinator = refl; database = refl; exclusive = λ x. x },
    refl,
    refl,
  )

  -- What the publication does: after an error nothing but the runtime, and after a late commit the
  -- tables, has changed, and after a
  -- success the fence is final and everything is the candidate's.
  unfoldable pub IsEnded :
      Env
      → Option (RuntimeTransitionReceipt R)
      → RegistrationTransaction
      → DaemonState R.State
      → Task R.State × Result (Unit {0}) RegistrationTransactionFailure
      → Type 0
  IsEnded x r c d (t, err e) =
      Fails (commits_late x.persist_fault) (λ m. m ≡ c.registrations) d t.state
      × (t.state.shutdown ≡ d.shutdown)
      × ((t.state.runtime ≡ d.runtime) ⊎ (t.state.runtime ≡ (accept_in R x r d).0.runtime))
  IsEnded x r c d (t, ok _) =
      (t.fence.permit ≡ CommitPermitState.finalized)
      × (t.state.shutdown ≡ d.shutdown)
      × (t.state.registrations ≡ c.registrations)
      × (t.state.coordinator ≡ c.coordinator)
      × IsStored c.registrations d.database t.state.database
      × (t.state.runtime ≡ (accept_in R x r d).0.runtime)
      × ((accept_in R x r d).1 ≡ ok tt)

  guarded-IsEnded :
      (x : Env) (f : OperationFence) (r : Option (RuntimeTransitionReceipt R))
      (c : RegistrationTransaction) (d : DaemonState R.State)
      → IsEnded x r c d (guarded_publish R x f r c d)
  unfolding guarded_publish IsEnded guard_commit IsPersisted
  guarded-IsEnded x f r c d =
      by_accept (accept_in R x r d).1 refl (persist x c.registrations (accept_in R x r d).0) refl
    where
      by_accept :
          (o : Result (Unit {0}) String)
          → (accept_in R x r d).1 ≡ o
          → (q : DaemonState R.State × Result (Unit {0}) String)
          → persist x c.registrations (accept_in R x r d).0 ≡ q
          → IsEnded x r c d (elim o [
            | err e ↦
                (record { state = (accept_in R x r d).0; fence = drop_guard f }, err (runtime e))
            | ok _ ↦ elim q.1 [
              | err e ↦ (record { state = q.0; fence = drop_guard f }, err (storage e))
              | ok _ ↦ (
                record {
                  state = (publish_candidate c q.0).0;
                  fence = record f { permit = CommitPermitState.finalized };
                },
                ok tt,
              )
            ]
          ])
      by_accept (err e) h q k =
          let (kept, down, table) = accept-Keeps x r d in (Fails-of_Keeps kept, down, inr refl)
      by_accept (ok u) h (d', err e) k =
          let (kept, down, table) = accept-Keeps x r d in
          let a = (accept_in R x r d).0 in
          let (same, tables) =
            subst (IsPersisted x c.registrations (accept_in R x r d).0) k
              (persist-IsPersisted x c.registrations (accept_in R x r d).0) in
          (
            record {
              kept =
                  subst (λ (z : DaemonState R.State). Keeps d (at_tables d.database z)) (sym same)
                    (Fails-of_Keeps {late = false} {Tried = λ m. ⊥} kept).kept;
              tables = elim tables [
                | inl e ↦ inl (e ∙ table)
                | inr (late, stored) ↦ inr (
                  c.registrations,
                  late,
                  refl,
                  subst (λ o. IsStored c.registrations o d'.database) table stored,
                )
              ];
            },
            ap (λ (z : DaemonState R.State). z.shutdown) same ∙ down,
            inr (ap (λ (z : DaemonState R.State). z.runtime) same),
          )
      by_accept (ok u) h (d', ok v) k =
          let (kept, down, table) = accept-Keeps x r d in
          let done =
            subst (IsPersisted x c.registrations (accept_in R x r d).0) k
              (persist-IsPersisted x c.registrations (accept_in R x r d).0) in
          (
            refl,
            ap (λ (z : DaemonState R.State). z.shutdown) done.0 ∙ down,
            refl,
            refl,
            subst (λ o. IsStored c.registrations o d'.database) table done.1,
            ap (λ (z : DaemonState R.State). z.runtime) done.0,
            h,
          )

  pub publish-IsEnded :
      (x : Env) (r : Option (RuntimeTransitionReceipt R)) (c : RegistrationTransaction)
      (t : Task R.State)
      → IsEnded x r (merged c t) t.state (publish R x r c t)
  unfolding publish IsEnded
  publish-IsEnded x r c t = by_begun (begin_final_commit t.state.lifecycle t.fence)
    where
      by_begun :
          (p : OperationFence × Result (Unit {0}) CommitRejection)
          → IsEnded x r (merged c t) t.state (elim p.1 [
            | err e ↦ (record t { fence = p.0 }, err (fenced e))
            | ok _ ↦ guarded_publish R x p.0 r (merged c t) t.state
          ])
      by_begun (f, err e) = (Fails-of_Keeps (Keeps-refl t.state), refl, inl refl)
      by_begun (f, ok u) = guarded-IsEnded x f r (merged c t) t.state
