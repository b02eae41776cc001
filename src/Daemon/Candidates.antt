-- ===== src/Daemon/Candidates.antt =====
-- The mutations of `DaemonState` in crates/cadder-daemon/src/state/registrations.rs from their
-- admission on: each makes a candidate of the registrations and hands it to the transaction. An
-- `anyhow::Error` is its text.
use Prim.Native.String as Str
use cadder.Base.{
  ℕ, String, Bool, true, Option, none, some, Result, ok, err, ◌==◌, string_eq, if◌then◌else◌,
}
use cadder.Base.Dict.{lookup, insert, remove, adjust}
use cadder.Caddy.Coordinator.{Coordinator, PreparedRegistration, commit_prepared_registration}
use cadder.Daemon.{Task, Env}
use cadder.Daemon.Responses.{
  refused, accepted, register_refused, registration_owner_conflict, registration_runtime_rejected,
  registration_storage_rejected, registration_mutation_runtime_rejected,
  registration_mutation_storage_rejected, answer,
}
use cadder.Daemon.Transaction.{
  RegistrationTransactionFailure, Schedule, execute_registration_transaction,
}
use cadder.Database.{Tables, restore_desired_state}
use cadder.Fence.{CommitRejection}
use cadder.Protocol.Messages.{
  SetEntrypointEnabledPayload, SetDomainEnabledPayload, RegisterEntrypointResponse, BasicResponse,
}
use cadder.Protocol.State.{EntrypointRegistration, nonce}
use cadder.Registrations.{
  Registrations, registration_has_different_owner, conflict_text, active_domain_ownership_conflict,
  with_activation, with_domain, has_domain,
}
use cadder.Runtime.{Runtime}

unfoldable pub restore_in :
    Option String → Option Tables → EntrypointRegistration → Result EntrypointRegistration String
unfolding restore_desired_state
restore_in fault none r = ok r
restore_in fault (some t) r = restore_desired_state fault t r

abbrev pub stamped : ℕ → EntrypointRegistration → EntrypointRegistration
stamped now r = record r { created_at_utc = now; last_heartbeat_utc = now }

-- `is_none_or`: no nonce stands for any owner.
abbrev pub names_owner : Option String → EntrypointRegistration → Bool
names_owner none r = true
names_owner (some session) r = nonce r == session

module _ (R : Runtime) where
  -- The last part of a mutation: the transaction, and its answer.
  abbrev pub conclude {ℓ} :
      {A : Type ℓ}
      → A
      → (String → A)
      → (String → A)
      → Task R.State × Result (Unit {0}) RegistrationTransactionFailure
      → Task R.State × Result A CommitRejection
  conclude success on_runtime on_storage (t, result) =
      (t, answer success on_runtime on_storage result)

  -- From the candidate on: the conflict check and the transaction.
  unfoldable pub register_candidate :
      Env
      → Schedule
      → Coordinator
      → EntrypointRegistration
      → Task R.State
      → Task R.State × Result RegisterEntrypointResponse CommitRejection
  unfolding active_domain_ownership_conflict execute_registration_transaction conflict_text insert
      registration_runtime_rejected registration_storage_rejected
  register_candidate x es coordinator r t =
      let candidate = insert r.registration_id r t.state.registrations in
      elim (active_domain_ownership_conflict candidate r.registration_id) [
        | some conflict ↦ (t, ok (register_refused (Str.◌++◌ (conflict_text conflict) ".")))
        | none ↦
            conclude
              (record {
                request_id = "";
                accepted = true;
                message = "Entrypoint registered.";
                registration_id = some r.registration_id;
              })
              registration_runtime_rejected registration_storage_rejected
              (execute_registration_transaction R x es
                (record { coordinator = coordinator; registrations = candidate }) t)
      ]

  -- From the adapter's answer on: its owner, and the desired state that was stored.
  unfoldable pub register_prepared :
      Env
      → Schedule
      → String
      → PreparedRegistration
      → Task R.State
      → Task R.State × Result RegisterEntrypointResponse CommitRejection
  unfolding registration_has_different_owner commit_prepared_registration restore_in
      register_candidate registration_storage_rejected
  register_prepared x es source_path p t =
      if registration_has_different_owner t.state.registrations p.registration
      then (t, ok registration_owner_conflict)
      else (let (coordinator, prepared) =
            commit_prepared_registration x.prepared_at source_path p t.state.coordinator in
          elim (restore_in x.restore_fault t.state.database prepared) [
            | err e ↦ (t, ok (registration_storage_rejected e))
            | ok restored ↦ register_candidate x es coordinator (stamped x.now restored) t
          ])

  -- The end of the mutations that answer a `BasicResponse`.
  abbrev pub mutate :
      Env
      → Schedule
      → String
      → String
      → String
      → Registrations
      → Task R.State
      → Task R.State × Result BasicResponse CommitRejection
  mutate x es success updating changing candidate t =
      conclude (accepted success) (registration_mutation_runtime_rejected updating)
        (registration_mutation_storage_rejected changing)
        (execute_registration_transaction R x es
          (record { coordinator = t.state.coordinator; registrations = candidate }) t)

  abbrev not_found : String → Task R.State → Task R.State × Result BasicResponse CommitRejection
  not_found message t = (t, ok (refused message))

  unfoldable pub unregister_candidate :
      Env
      → Schedule
      → String
      → String
      → Task R.State
      → Task R.State × Result BasicResponse CommitRejection
  unfolding lookup remove execute_registration_transaction registration_mutation_runtime_rejected
      registration_mutation_storage_rejected
  unregister_candidate x es id session t = elim (lookup id t.state.registrations) [
    | none ↦ not_found "Entrypoint was not found for the requested owner." t
    | some r ↦
        (let removed =
            mutate x es "Entrypoint unregistered." "unregister entrypoint" "unregister entrypoint"
              (remove id t.state.registrations) t in
          if nonce r == session
          then removed
          else not_found "Entrypoint was not found for the requested owner." t)
  ]

  -- A change that is checked for conflicts when it enables.
  unfoldable pub checked :
      Env
      → Schedule
      → String
      → String
      → String
      → Bool
      → String
      → Registrations
      → Task R.State
      → Task R.State × Result BasicResponse CommitRejection
  unfolding active_domain_ownership_conflict conflict_text execute_registration_transaction
      registration_mutation_runtime_rejected registration_mutation_storage_rejected
  checked x es success updating changing enabled id candidate t =
      let done = mutate x es success updating changing candidate t in
      if enabled
      then elim (active_domain_ownership_conflict candidate id) [
        | some conflict ↦ (t, ok (refused (Str.◌++◌ (conflict_text conflict) ".")))
        | none ↦ done
      ]
      else done

  unfoldable pub set_entrypoint_candidate :
      Env
      → Schedule
      → SetEntrypointEnabledPayload
      → Task R.State
      → Task R.State × Result BasicResponse CommitRejection
  unfolding lookup adjust checked
  set_entrypoint_candidate x es p t = elim (lookup p.registration_id t.state.registrations) [
    | none ↦ not_found "Entrypoint was not found." t
    | some r ↦
        (let changed =
            checked x es "Entrypoint activation updated." "update entrypoint activation"
              "change entrypoint activation" p.enabled p.registration_id
              (adjust p.registration_id (with_activation p.enabled) t.state.registrations) t in
          if names_owner p.shim_session_nonce r
          then changed
          else not_found "Entrypoint was not found." t)
  ]

  unfoldable pub set_domain_candidate :
      Env
      → Schedule
      → SetDomainEnabledPayload
      → Task R.State
      → Task R.State × Result BasicResponse CommitRejection
  unfolding lookup adjust has_domain checked
  set_domain_candidate x es p t = elim (lookup p.registration_id t.state.registrations) [
    | none ↦ not_found "Domain was not found." t
    | some r ↦
        (let changed =
            checked x es "Domain activation updated." "update domain activation"
              "change domain activation" p.enabled p.registration_id
              (adjust p.registration_id (with_domain p.domain_key p.enabled) t.state.registrations)
              t in
          if has_domain p.domain_key r.registered_domains
          then changed
          else not_found "Domain was not found." t)
  ]
