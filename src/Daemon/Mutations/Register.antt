-- ===== src/Daemon/Mutations/Register.antt =====
-- What `register` does: the prepared registration enters, whole, or nothing.
use Prim.Native.String as Str
use cadder.Base.{
  ℕ, ap, String, ◌≡◌, refl, Bool, true, false, Option, none, some, Result, ok, err, string_eq,
  if◌then◌else◌, arith,
}
use cadder.Base.Dict.{insert}
use cadder.Caddy.Coordinator.{Coordinator, PreparedRegistration, commit_prepared_registration}
use cadder.Daemon.{DaemonState, Task, Env}
use cadder.Daemon.Interleaving.{meanwhile}
use cadder.Daemon.Candidates.{stamped, restore_in, register_candidate, register_prepared, conclude}
use cadder.Daemon.Mutations.{register_fenced, register}
use cadder.Daemon.Responses.{
  register_refused, mutation_admission_message, registration_runtime_rejected,
  registration_storage_rejected, registration_owner_conflict,
}
use cadder.Daemon.Mutations.Outcome.{
  IsOutcome, IsEndOf, IsEndOf-quiet, refused-IsEndOf, conclude-IsEndOf, with_fence-IsOutcome,
}
use cadder.Daemon.Transaction.{Schedule, execute_registration_transaction}
use cadder.Daemon.Transaction.Preserve.{meanwhile-IsQuiet}
use cadder.Database.{Tables, restore_desired_state}
use cadder.Database.RoundTrip.{arriving, arriving_own, restore_desired_state-arriving}
use cadder.Fence.{CommitRejection}
use cadder.Protocol.Messages.{RegisterEntrypointResponse}
use cadder.Protocol.State.{
  ActivationState, RegisteredDomain, EntrypointRegistration, nonce, validate_owner,
}
use cadder.Registrations.{
  Registrations, DomainOwnershipConflict, active_domain_ownership_conflict,
  registration_has_different_owner, conflict_text,
}
use cadder.Registrations.Exclusive.Edits.{insert-IsExclusive}
use cadder.Runtime.{Runtime, Serving}

abbrev pub is_accepted : RegisterEntrypointResponse → Bool
is_accepted a = a.accepted

-- The registration that enters is the prepared one but for its times, which are `now`, and its
-- activation states, and no other session has its id.
abbrev pub Registers : ℕ → PreparedRegistration → Registrations → Registrations → Type 0
Registers now p m n =
    (r : EntrypointRegistration) × (a : ActivationState) × (each : RegisteredDomain
      → ActivationState)
    × (r ≡ stamped now (arriving a each p.registration))
    × (r.registration_id ≡ p.registration.registration_id)
    × (nonce r ≡ nonce p.registration)
    × (registration_has_different_owner m p.registration ≡ false)
    × (n ≡ insert r.registration_id r m)

pub restore_in_keeps :
    (fault : Option String) (o : Option Tables) (p r : EntrypointRegistration)
    → restore_in fault o p ≡ ok r
    → (r.registration_id ≡ p.registration_id) × (nonce r ≡ nonce p)
unfolding restore_in restore_desired_state
restore_in_keeps fault none p r h = (cc h, cc h)
restore_in_keeps none (some t) p r h = (ground (arith, h), ground (arith, h))
restore_in_keeps (some e) (some t) p r h = absurd (ground (arith, h))

restore_in-arriving :
    (fault : Option String) (o : Option Tables) (p r : EntrypointRegistration)
    → restore_in fault o p ≡ ok r
    → (a : ActivationState) × (each : RegisteredDomain → ActivationState) × (r ≡ arriving a each p)
unfolding restore_in
restore_in-arriving fault none p r h =
    (p.activation_state, (λ d. d.activation_state), cc (h, arriving_own p))
restore_in-arriving fault (some t) p r h = restore_desired_state-arriving fault t p r h

module _ {R : Runtime} (V : Serving R) (x : Env) (es : Schedule) where
  module _ (p : PreparedRegistration) where
    register_candidate-IsEndOf :
        (c : Coordinator) (r : EntrypointRegistration) (t : Task R.State)
        → Registers x.now p t.state.registrations (insert r.registration_id r t.state.registrations)
        → IsEndOf V x is_accepted (Registers x.now p) t.state (register_candidate R x es c r t)
    unfolding register_candidate registration_runtime_rejected registration_storage_rejected
    register_candidate-IsEndOf c r t edited =
        by_conflict
          (active_domain_ownership_conflict (insert r.registration_id r t.state.registrations)
            r.registration_id)
          refl
      where
        answered : RegisterEntrypointResponse
        answered = record {
          request_id = "";
          accepted = true;
          message = "Entrypoint registered.";
          registration_id = some r.registration_id;
        }

        by_conflict :
            (o : Option DomainOwnershipConflict)
            → active_domain_ownership_conflict
                (insert r.registration_id r t.state.registrations)
                r.registration_id
              ≡ o
            → IsEndOf V x is_accepted (Registers x.now p) t.state (elim o [
              | some conflict ↦ (t, ok (register_refused (Str.◌++◌ (conflict_text conflict) ".")))
              | none ↦
                  conclude R answered registration_runtime_rejected registration_storage_rejected (
                    execute_registration_transaction R x es
                      (record {
                        coordinator = c;
                        registrations = insert r.registration_id r t.state.registrations;
                      })
                      t)
            ])
        by_conflict (some conflict) h =
            refused-IsEndOf V x is_accepted (Registers x.now p)
              (register_refused (Str.◌++◌ (conflict_text conflict) ".")) t refl
        by_conflict none h =
            conclude-IsEndOf V x is_accepted (Registers x.now p) answered
              registration_runtime_rejected registration_storage_rejected es
              (record {
                coordinator = c;
                registrations = insert r.registration_id r t.state.registrations;
              })
              t refl (λ e. refl) (λ e. refl) edited
              (λ e. insert-IsExclusive t.state.registrations r e h)

    register_prepared-IsEndOf :
        (source_path : String) (t : Task R.State)
        → IsEndOf V x is_accepted
            (Registers x.now p)
            t.state
            (register_prepared R x es source_path p t)
    unfolding register_prepared commit_prepared_registration registration_storage_rejected
    register_prepared-IsEndOf source_path t =
        by_owner (registration_has_different_owner t.state.registrations p.registration) refl
      where
        coordinator : Coordinator
        coordinator =
            (commit_prepared_registration x.prepared_at source_path p t.state.coordinator).0

        restored_or :
            Result EntrypointRegistration String
            → Task R.State × Result RegisterEntrypointResponse CommitRejection
        restored_or (err e) = (t, ok (registration_storage_rejected e))
        restored_or (ok r) = register_candidate R x es coordinator (stamped x.now r) t

        by_restored :
            registration_has_different_owner t.state.registrations p.registration ≡ false
            → (o : Result EntrypointRegistration String)
            → restore_in x.restore_fault t.state.database p.registration ≡ o
            → IsEndOf V x is_accepted (Registers x.now p) t.state (restored_or o)
        by_restored owned (err e) h =
            refused-IsEndOf V x is_accepted (Registers x.now p) (registration_storage_rejected e) t
              refl
        by_restored owned (ok r) h =
            let (same_id, same_nonce) =
              restore_in_keeps x.restore_fault t.state.database p.registration r h in
            let (a, each, same) =
              restore_in-arriving x.restore_fault t.state.database p.registration r h in
            register_candidate-IsEndOf coordinator (stamped x.now r) t
              (stamped x.now r, a, each, ap (stamped x.now) same, same_id, same_nonce, owned, refl)

        by_owner :
            (b : Bool)
            → registration_has_different_owner t.state.registrations p.registration ≡ b
            → IsEndOf V x is_accepted (Registers x.now p) t.state (
                if b
                then (t, ok registration_owner_conflict)
                else restored_or (restore_in x.restore_fault t.state.database p.registration))
        by_owner true h =
            refused-IsEndOf V x is_accepted (Registers x.now p) registration_owner_conflict t refl
        by_owner false h =
            by_restored h (restore_in x.restore_fault t.state.database p.registration) refl

  module _ (r : EntrypointRegistration) where
    pub register_fenced-IsEndOf :
        (t : Task R.State)
        → IsEndOf V x is_accepted
            (Registers x.now (x.prepare r))
            t.state
            (register_fenced R x es r t)
    unfolding register_fenced
    register_fenced-IsEndOf t = by_valid (validate_owner r)
      where
        arrived : Task R.State
        arrived = meanwhile es.arriving t

        prepared : Task R.State
        prepared = meanwhile es.preparing arrived

        valid : Bool → Task R.State × Result RegisterEntrypointResponse CommitRejection
        valid b =
            if b
            then (arrived, ok registration_owner_conflict)
            else register_prepared R x es r.source_config_path.raw (x.prepare r) prepared

        by_owner :
            (b : Bool)
            → IsEndOf V x is_accepted (Registers x.now (x.prepare r)) arrived.state (valid b)
        by_owner true =
            refused-IsEndOf V x is_accepted (Registers x.now (x.prepare r))
              registration_owner_conflict arrived refl
        by_owner false =
            IsEndOf-quiet V x is_accepted (Registers x.now (x.prepare r)) arrived.state
              prepared.state
              (register_prepared R x es r.source_config_path.raw (x.prepare r) prepared)
              (meanwhile-IsQuiet es.preparing arrived)
              (register_prepared-IsEndOf (x.prepare r) r.source_config_path.raw prepared)

        by_valid :
            (o : Result (Unit {0}) String)
            → IsEndOf V x is_accepted (Registers x.now (x.prepare r)) t.state (elim o [
              | err message ↦ (t, ok (register_refused message))
              | ok _ ↦ valid (registration_has_different_owner arrived.state.registrations r)
            ])
        by_valid (err message) =
            refused-IsEndOf V x is_accepted (Registers x.now (x.prepare r))
              (register_refused message) t refl
        by_valid (ok u) =
            IsEndOf-quiet V x is_accepted (Registers x.now (x.prepare r)) t.state arrived.state
              (valid (registration_has_different_owner arrived.state.registrations r))
              (meanwhile-IsQuiet es.arriving t)
              (by_owner (registration_has_different_owner arrived.state.registrations r))

    -- `register` either answers that it was refused, and then no desired state has changed and Caddy
    -- serves what it did unless the daemon is to shut down; or that it was accepted, and then what
    -- the adapter prepared, an id of which no other session had, is in the published, stored and
    -- served state, with its domains and all else but its times and activation states. A refusal leaves
    -- the tables but for a commit that the storage reported as late.
    pub register_effect :
        (d : DaemonState R.State)
        → IsOutcome V x
            (Registers x.now (x.prepare r))
            (register R x es r d).1.accepted
            d
            (register R x es r d).0
    unfolding register mutation_admission_message
    register_effect d =
        with_fence-IsOutcome V x is_accepted (Registers x.now (x.prepare r))
          (λ e. register_refused (mutation_admission_message e)) (register_fenced R x es r) d
          (λ e. refl) register_fenced-IsEndOf
