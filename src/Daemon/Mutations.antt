-- ===== src/Daemon/Mutations.antt =====
-- The mutations of `DaemonState` in crates/cadder-daemon/src/state/registrations.rs: the admission to
-- the fence, and the answer. What is admitted is in `Daemon.Candidates`.
pub mod Outcome
pub mod Editing
pub mod Effects
pub mod Register
pub mod Naming
use Prim.Native.String as Str
use cadder.Base.{
  ℕ, String, Bool, true, false, not, ◌&&◌, Option, none, some, List, [], ◌∷◌, Result, ok, err,
  unwrap_or_else, ◌==◌, string_eq, if◌then◌else◌, is_empty,
}
use cadder.Base.Dict.{lookup, insert, remove, adjust}
use cadder.Caddy.Coordinator.{Coordinator, PreparedRegistration, commit_prepared_registration}
use cadder.Daemon.{DaemonState, Task, Env}
use cadder.Daemon.Interleaving.{Event, meanwhile}
use cadder.Daemon.Responses.{
  mutation_admission_message, refused, accepted, mutation_rejected, register_refused,
  registration_owner_conflict, registration_runtime_rejected, registration_storage_rejected,
  registration_mutation_runtime_rejected, registration_mutation_storage_rejected, answer,
}
use cadder.Daemon.Transaction.{
  RegistrationTransaction, RegistrationTransactionFailure, fenced, runtime, storage, Schedule,
  execute_registration_transaction,
}
use cadder.Database.{Tables, restore_desired_state}
use cadder.Fence.{CommitRejection, revoked, stale_epoch, draining, OperationFence, admit, issue}
use cadder.Protocol.Messages.{
  SetEntrypointEnabledPayload, SetDomainEnabledPayload, RegisterEntrypointResponse, BasicResponse,
}
use cadder.Protocol.State.{EntrypointRegistration, nonce, validate_owner}
use cadder.Registrations.{
  Registrations, registration_has_different_owner, DomainOwnershipConflict, conflict_text,
  active_domain_ownership_conflict, with_activation, with_domain, has_domain,
}
use cadder.Runtime.{Runtime}
use cadder.Daemon.Candidates.{
  register_prepared, unregister_candidate, set_entrypoint_candidate, set_domain_candidate,
}

module _ (R : Runtime) where
  unfoldable pub register_fenced :
      Env
      → Schedule
      → EntrypointRegistration
      → Task R.State
      → Task R.State × Result RegisterEntrypointResponse CommitRejection
  unfolding validate_owner registration_has_different_owner register_prepared meanwhile
  register_fenced x es r t =
      let arrived = meanwhile es.arriving t in
      elim (validate_owner r) [
        | err message ↦ (t, ok (register_refused message))
        | ok _ ↦
            (if registration_has_different_owner arrived.state.registrations r
              then (arrived, ok registration_owner_conflict)
              else register_prepared R x es r.source_config_path.raw (x.prepare r)
                  (meanwhile es.preparing arrived))
      ]

  -- `fence.commit(|| ())?`, once the operation is this mutation's turn.
  abbrev pub admitted {ℓ} :
      {A : Type ℓ}
      → Schedule
      → (Task R.State → Task R.State × Result A CommitRejection)
      → Task R.State
      → Task R.State × Result A CommitRejection
  admitted es body t =
      let arrived = meanwhile es.arriving t in
      elim (admit arrived.state.lifecycle arrived.fence) [
        | err e ↦ (arrived, err e)
        | ok _ ↦ body arrived
      ]

  unfoldable pub unregister_fenced :
      Env
      → Schedule
      → String
      → String
      → Task R.State
      → Task R.State × Result BasicResponse CommitRejection
  unfolding unregister_candidate admit meanwhile
  unregister_fenced x es id session t = admitted es (unregister_candidate R x es id session) t

  unfoldable pub set_entrypoint_enabled_fenced :
      Env
      → Schedule
      → SetEntrypointEnabledPayload
      → Task R.State
      → Task R.State × Result BasicResponse CommitRejection
  unfolding set_entrypoint_candidate admit meanwhile
  set_entrypoint_enabled_fenced x es p t = admitted es (set_entrypoint_candidate R x es p) t

  unfoldable pub set_domain_enabled_fenced :
      Env
      → Schedule
      → SetDomainEnabledPayload
      → Task R.State
      → Task R.State × Result BasicResponse CommitRejection
  unfolding set_domain_candidate admit meanwhile
  set_domain_enabled_fenced x es p t = admitted es (set_domain_candidate R x es p) t

  -- The mutation's own fence, and a rejection as a response.
  abbrev pub with_fence {ℓ} :
      {A : Type ℓ}
      → (CommitRejection → A)
      → (Task R.State → Task R.State × Result A CommitRejection)
      → DaemonState R.State
      → DaemonState R.State × A
  with_fence rejected body d = elim (issue d.lifecycle) [
    | err e ↦ (d, rejected e)
    | ok f ↦
        (let (t, result) = body (record { state = d; fence = f }) in
          (t.state, unwrap_or_else result rejected))
  ]

  abbrev register_rejected : CommitRejection → RegisterEntrypointResponse
  register_rejected e = register_refused (mutation_admission_message e)

  unfoldable pub register :
      Env
      → Schedule
      → EntrypointRegistration
      → DaemonState R.State
      → DaemonState R.State × RegisterEntrypointResponse
  unfolding register_fenced issue mutation_admission_message
  register x es r d = with_fence register_rejected (register_fenced x es r) d

  unfoldable pub unregister :
      Env → Schedule → String → String → DaemonState R.State → DaemonState R.State × BasicResponse
  unfolding unregister_fenced issue mutation_rejected
  unregister x es id session d = with_fence mutation_rejected (unregister_fenced x es id session) d

  unfoldable pub set_entrypoint_enabled :
      Env
      → Schedule
      → SetEntrypointEnabledPayload
      → DaemonState R.State
      → DaemonState R.State × BasicResponse
  unfolding set_entrypoint_enabled_fenced issue mutation_rejected
  set_entrypoint_enabled x es p d =
      with_fence mutation_rejected (set_entrypoint_enabled_fenced x es p) d

  unfoldable pub set_domain_enabled :
      Env
      → Schedule
      → SetDomainEnabledPayload
      → DaemonState R.State
      → DaemonState R.State × BasicResponse
  unfolding set_domain_enabled_fenced issue mutation_rejected
  set_domain_enabled x es p d = with_fence mutation_rejected (set_domain_enabled_fenced x es p) d
