-- ===== src/Daemon/Transaction/Completion.antt =====
-- A transaction over the mock runtime that meets no fault and no other task succeeds.
use cadder.Base.{
  ℕ, String, ◌≡◌, refl, Option, none, some, List, [], Result, ok, err, ◌∙◌, ap, arith,
}
use cadder.Base.Dict.{values}
use cadder.Database.{Tables}
use cadder.Registrations.{Registrations}
use cadder.Caddy.Coordinator.{Coordinator, CaddyApplyAction, unchanged, stop, apply, begin_apply}
use cadder.Daemon.{DaemonState, Task, Env}
use cadder.Daemon.Interleaving.{Event, meanwhile}
use cadder.Daemon.Transaction.{
  RegistrationTransaction, RegistrationTransactionFailure, fenced, Schedule,
  RuntimeTransitionReceipt, applied, stopped, transition, settle, stop_runtime, apply_runtime,
  apply_runtime_transition, accept_in, receipt_accept, persist, persist_in, guarded_publish,
  publish, undo, execute_registration_transaction,
}
use cadder.Daemon.Transaction.Publish.{merged}
use cadder.Fence.{
  CommitPermitState, CommitRejection, OperationFence, admit, begin_final_commit, guard_commit,
}
use cadder.Fence.Laws.{MayCommit, admit_iff}
use cadder.Runtime.Mock.{MockState, begin_apply_config, accept_apply, begin_stop, accept_stop}
use cadder.Runtime.Mock.Laws.{mock_runtime}

-- A transition that was begun, from a daemon of which the rest is as it was.
IsBegunWell :
    DaemonState MockState
    → DaemonState MockState
      × Result
          (Coordinator × Option (RuntimeTransitionReceipt mock_runtime))
          RegistrationTransactionFailure
    → Type 0
IsBegunWell d (d', err e) = ⊥
IsBegunWell d (d', ok (k, r)) =
    (d'.lifecycle ≡ d.lifecycle) × (d'.runtime.faults ≡ []) × (d'.database ≡ d.database)

stop-IsBegunWell :
    (x : Env) (n : ℕ) (d : DaemonState MockState) (c : Coordinator)
    → d.runtime.faults ≡ []
    → IsBegunWell d (stop_runtime mock_runtime x n d c)
unfolding stop_runtime settle begin_stop IsBegunWell
stop-IsBegunWell x n d c f = ground (arith, f)

apply-IsBegunWell :
    (x : Env) (n : ℕ) (bytes : List ℕ) (hash : String) (paths : List String)
    (d : DaemonState MockState) (c : Coordinator)
    → d.runtime.faults ≡ []
    → IsBegunWell d (apply_runtime mock_runtime x n bytes hash paths d c)
unfolding apply_runtime settle begin_apply_config IsBegunWell
apply-IsBegunWell x n bytes hash paths d c f = ground (arith, f)

transition-IsBegunWell :
    (x : Env) (a : CaddyApplyAction) (t : Task MockState) (c : Coordinator)
    → admit t.state.lifecycle t.fence ≡ ok tt
    → t.state.runtime.faults ≡ []
    → IsBegunWell t.state (transition mock_runtime x a t c)
unfolding transition IsBegunWell
transition-IsBegunWell x (unchanged s) t c h f = (refl, f, refl)
transition-IsBegunWell x (stop n) t c h f = by_admit (admit t.state.lifecycle t.fence) h
  where
    by_admit :
        (o : Result (Unit {0}) CommitRejection)
        → o ≡ ok tt
        → IsBegunWell t.state (elim o [
          | err e ↦ (t.state, err (fenced e))
          | ok _ ↦ stop_runtime mock_runtime x n t.state c
        ])
    by_admit (err e) k = cc k
    by_admit (ok u) k = stop-IsBegunWell x n t.state c f
transition-IsBegunWell x (apply n bytes hash paths) t c h f =
    by_admit (admit t.state.lifecycle t.fence) h
  where
    by_admit :
        (o : Result (Unit {0}) CommitRejection)
        → o ≡ ok tt
        → IsBegunWell t.state (elim o [
          | err e ↦ (t.state, err (fenced e))
          | ok _ ↦ apply_runtime mock_runtime x n bytes hash paths t.state c
        ])
    by_admit (err e) k = cc k
    by_admit (ok u) k = apply-IsBegunWell x n bytes hash paths t.state c f

accept_well :
    (x : Env) (r : Option (RuntimeTransitionReceipt mock_runtime)) (d : DaemonState MockState)
    → d.runtime.faults ≡ []
    → ((accept_in mock_runtime x r d).1 ≡ ok tt)
      × ((accept_in mock_runtime x r d).0.database ≡ d.database)
unfolding accept_in receipt_accept accept_stop accept_apply
accept_well x none d f = (refl, refl)
accept_well x (some (applied r)) d f = (ground (arith, f), refl)
accept_well x (some (stopped r)) d f = (ground (arith, f), refl)

-- Without a database there is nothing to store.
persist_well :
    {S : Type 0} (x : Env) (m : Registrations) (d : DaemonState S)
    → d.database ≡ none
    → (persist x m d).1 ≡ ok tt
unfolding persist persist_in
persist_well x m d n = by_tables d.database n
  where
    by_tables : (o : Option Tables) → o ≡ none → (persist_in x m o d).1 ≡ ok tt
    by_tables none k = refl
    by_tables (some t) k = cc k

guarded_well :
    (x : Env) (f : OperationFence) (r : Option (RuntimeTransitionReceipt mock_runtime))
    (c : RegistrationTransaction) (d : DaemonState MockState)
    → d.runtime.faults ≡ []
    → d.database ≡ none
    → (guarded_publish mock_runtime x f r c d).1 ≡ ok tt
unfolding guarded_publish guard_commit
guarded_well x f r c d h n =
    let (good, same) = accept_well x r d h in
    let stored = persist_well x c.registrations (accept_in mock_runtime x r d).0 (same ∙ n) in
    ground (arith, good, stored)

publish_well :
    (x : Env) (r : Option (RuntimeTransitionReceipt mock_runtime)) (c : RegistrationTransaction)
    (t : Task MockState)
    → admit t.state.lifecycle t.fence ≡ ok tt
    → t.state.runtime.faults ≡ []
    → t.state.database ≡ none
    → (publish mock_runtime x r c t).1 ≡ ok tt
unfolding publish begin_final_commit
publish_well x r c t h f n = ground (
  arith,
  h,
  guarded_well x (record t.fence { permit = CommitPermitState.committing }) r (merged c t) t.state f
      n,
)

abbrev IsCompleted : Task MockState × Result (Unit {0}) RegistrationTransactionFailure → Type 0
IsCompleted q = q.1 ≡ ok tt

undo_well :
    (x : Env) (es : List Event) (r : Option (RuntimeTransitionReceipt mock_runtime))
    (q : Task MockState × Result (Unit {0}) RegistrationTransactionFailure)
    → q.1 ≡ ok tt
    → (undo mock_runtime x es r q).1 ≡ ok tt
unfolding undo
undo_well x es r (t, ok u) h = refl
undo_well x es r (t, err e) h = h

module _ (x : Env) (es : Schedule) (c : RegistrationTransaction) (t : Task MockState)
    (may : MayCommit t.state.lifecycle t.fence) (faults : t.state.runtime.faults ≡ [])
    (no_tables : t.state.database ≡ none) where
  admitted : admit t.state.lifecycle t.fence ≡ ok tt
  admitted = (admit_iff t.state.lifecycle t.fence).1 may

  -- Over a mock runtime without faults and a daemon without a database, a transaction that other
  -- tasks leave alone until it is published and whose fence may commit succeeds, whatever its
  -- candidate and whatever Caddy is to do.
  pub execute_completes :
      (execute_registration_transaction mock_runtime x
        (record es { composing = []; applying = [] })
        c
        t).1
      ≡ ok tt
  unfolding execute_registration_transaction apply_runtime_transition meanwhile IsBegunWell
  execute_completes =
      by_transition
        (transition mock_runtime x
          (begin_apply x.externals x.attempted_at (values c.registrations) c.coordinator).1 t
          (begin_apply x.externals x.attempted_at (values c.registrations) c.coordinator).0)
        (transition-IsBegunWell x
          (begin_apply x.externals x.attempted_at (values c.registrations) c.coordinator).1 t
          (begin_apply x.externals x.attempted_at (values c.registrations) c.coordinator).0 admitted
          faults)
    where
      by_transition :
          (p : DaemonState MockState
            × Result
                (Coordinator × Option (RuntimeTransitionReceipt mock_runtime))
                RegistrationTransactionFailure)
          → IsBegunWell t.state p
          → IsCompleted (elim p.1 [
            | err e ↦ (record t { state = p.0 }, err e)
            | ok (coordinator, r) ↦ undo mock_runtime x es.undoing r (
                publish mock_runtime x r
                  (record c { coordinator = coordinator })
                  (record t { state = p.0 }))
          ])
      by_transition (d, err e) h = absurd h
      by_transition (d, ok (k, r)) (lifecycle, calm, same) =
          undo_well x es.undoing r
            (publish mock_runtime x r (record c { coordinator = k }) (record t { state = d }))
            (publish_well x r (record c { coordinator = k }) (record t { state = d })
              (ap (λ l. admit l t.fence) lifecycle ∙ admitted) calm (same ∙ no_tables))
