-- ===== src/Daemon/Mutations/Naming.antt =====
-- The id that an accepted registration answers.
use Prim.Native.String as Str
use cadder.Base.{
  String, ◌≡◌, refl, true, Option, none, some, Result, ok, err, subst, if-elim, if◌then◌else◌,
}
use cadder.Base.Dict.{insert}
use cadder.Caddy.Coordinator.{Coordinator, PreparedRegistration, commit_prepared_registration}
use cadder.Daemon.{Task, Env}
use cadder.Daemon.Interleaving.{meanwhile}
use cadder.Daemon.Candidates.{stamped, restore_in, register_candidate, register_prepared, conclude}
use cadder.Daemon.Mutations.{register_fenced}
use cadder.Daemon.Mutations.Register.{restore_in_keeps}
use cadder.Daemon.Responses.{
  register_refused, registration_runtime_rejected, registration_storage_rejected,
  registration_owner_conflict,
}
use cadder.Daemon.Transaction.{
  RegistrationTransactionFailure, fenced, runtime, storage, Schedule,
  execute_registration_transaction,
}
use cadder.Fence.{CommitRejection}
use cadder.Protocol.Messages.{RegisterEntrypointResponse}
use cadder.Protocol.State.{EntrypointRegistration, validate_owner}
use cadder.Registrations.{
  DomainOwnershipConflict, active_domain_ownership_conflict, registration_has_different_owner,
  conflict_text,
}
use cadder.Runtime.{Runtime}

-- An answer that accepts names the id.
abbrev pub Names :
    {S : Type 0} → String → Task S × Result RegisterEntrypointResponse CommitRejection → Type 0
Names id (t, ok a) = a.accepted ≡ true → a.registration_id ≡ some id
Names id (t, err e) = Unit {0}

module _ (R : Runtime) (x : Env) (es : Schedule) where
  conclude-Names :
      (a : RegisterEntrypointResponse) (id : String)
      (p : Task R.State × Result (Unit {0}) RegistrationTransactionFailure)
      → a.registration_id ≡ some id
      → Names id (conclude R a registration_runtime_rejected registration_storage_rejected p)
  unfolding registration_runtime_rejected registration_storage_rejected
  conclude-Names a id (t, ok u) h = λ _. h
  conclude-Names a id (t, err (fenced e)) h = tt
  conclude-Names a id (t, err (runtime e)) h = λ e. cc e
  conclude-Names a id (t, err (storage e)) h = λ e. cc e

  register_candidate-Names :
      (c : Coordinator) (r : EntrypointRegistration) (t : Task R.State)
      → Names r.registration_id (register_candidate R x es c r t)
  unfolding register_candidate
  register_candidate-Names c r t = by_conflict (
      active_domain_ownership_conflict (insert r.registration_id r t.state.registrations)
        r.registration_id)
    where
      answered : RegisterEntrypointResponse
      answered = record {
        request_id = "";
        accepted = true;
        message = "Entrypoint registered.";
        registration_id = some r.registration_id;
      }

      done : Task R.State × Result (Unit {0}) RegistrationTransactionFailure
      done =
          execute_registration_transaction R x es
            (record {
              coordinator = c;
              registrations = insert r.registration_id r t.state.registrations;
            })
            t

      by_conflict :
          (o : Option DomainOwnershipConflict)
          → Names {S = R.State} r.registration_id (elim o [
            | some conflict ↦ (t, ok (register_refused (Str.◌++◌ (conflict_text conflict) ".")))
            | none ↦
                conclude R answered registration_runtime_rejected registration_storage_rejected done
          ])
      by_conflict (some conflict) = λ e. cc e
      by_conflict none = conclude-Names answered r.registration_id done refl

  register_prepared-Names :
      (source_path : String) (p : PreparedRegistration) (t : Task R.State)
      → Names p.registration.registration_id (register_prepared R x es source_path p t)
  unfolding register_prepared commit_prepared_registration registration_storage_rejected
  register_prepared-Names source_path p t =
      if-elim (Names {S = R.State} p.registration.registration_id)
        (registration_has_different_owner t.state.registrations p.registration) (λ _ e. cc e)
        (λ _. by_restored (restore_in x.restore_fault t.state.database p.registration) refl)
    where
      coordinator : Coordinator
      coordinator = (commit_prepared_registration x.prepared_at source_path p t.state.coordinator).0

      by_restored :
          (o : Result EntrypointRegistration String)
          → restore_in x.restore_fault t.state.database p.registration ≡ o
          → Names {S = R.State} p.registration.registration_id (elim o [
            | err e ↦ (t, ok (registration_storage_rejected e))
            | ok restored ↦ register_candidate R x es coordinator (stamped x.now restored) t
          ])
      by_restored (err e) h = λ e. cc e
      by_restored (ok r) h =
          let (same, nonces) =
            restore_in_keeps x.restore_fault t.state.database p.registration r h in
          subst
            (λ id.
              Names {S = R.State} id (register_candidate R x es coordinator (stamped x.now r) t))
            same (register_candidate-Names coordinator (stamped x.now r) t)

  pub register_fenced-Names :
      (r : EntrypointRegistration) (t : Task R.State)
      → Names (x.prepare r).registration.registration_id (register_fenced R x es r t)
  unfolding register_fenced
  register_fenced-Names r t = by_valid (validate_owner r)
    where
      arrived : Task R.State
      arrived = meanwhile es.arriving t

      body : Task R.State × Result RegisterEntrypointResponse CommitRejection
      body =
          if registration_has_different_owner arrived.state.registrations r
          then (arrived, ok registration_owner_conflict)
          else register_prepared R x es r.source_config_path.raw (x.prepare r)
              (meanwhile es.preparing arrived)

      by_valid :
          (o : Result (Unit {0}) String)
          → Names {S = R.State}
              (x.prepare r).registration.registration_id
              (elim o [ err message ↦ (t, ok (register_refused message)) | ok _ ↦ body ])
      by_valid (err message) = λ e. cc e
      by_valid (ok u) =
          if-elim (Names {S = R.State} (x.prepare r).registration.registration_id)
            (registration_has_different_owner arrived.state.registrations r) (λ _ e. cc e)
            (λ _.
              register_prepared-Names r.source_config_path.raw (x.prepare r)
                (meanwhile es.preparing arrived))
