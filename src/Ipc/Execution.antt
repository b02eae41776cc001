-- ===== src/Ipc/Execution.antt =====
-- `OwnedMutationRequest` of crates/cadder-daemon/src/ipc/supervision.rs: a worker runs a mutation of
-- the daemon, and the connection owns what it registers.
pub mod Owning
use cadder.Base.{String, Bool, true, false, Option, none, some, Result, ok, err, if◌then◌else◌}
use cadder.Daemon.{DaemonState, Task, Env}
use cadder.Daemon.Interleaving.{heartbeat_fenced}
use cadder.Daemon.Mutations.{
  register_fenced, unregister_fenced, set_entrypoint_enabled_fenced, set_domain_enabled_fenced,
}
use cadder.Daemon.Transaction.{Schedule}
use cadder.Fence.{CommitRejection}
use cadder.Ipc.Ownership.{ConnectionOwnershipState, own, disown}
use cadder.Protocol.Messages.{
  HeartbeatEntrypointPayload, SetEntrypointEnabledPayload, SetDomainEnabledPayload,
  RegisterEntrypointResponse, BasicResponse,
}
use cadder.Protocol.Operations.{
  register_entrypoint_response, unregister_entrypoint_response, heartbeat_entrypoint_response,
  set_entrypoint_enabled_response, set_domain_enabled_response,
}
use cadder.Protocol.State.{EntrypointRegistration, nonce}
use cadder.Runtime.{Runtime}

pub data OwnedMutationRequest : Type 0 where
  registering : EntrypointRegistration → OwnedMutationRequest
  unregistering : (registration_id shim_session_nonce : String) → OwnedMutationRequest
  beating : HeartbeatEntrypointPayload → OwnedMutationRequest
  setting_entrypoint : SetEntrypointEnabledPayload → OwnedMutationRequest
  setting_domain : SetDomainEnabledPayload → OwnedMutationRequest

pub data OwnedMutationResponse : Type 0 where
  registered : RegisterEntrypointResponse → OwnedMutationResponse
  basic : BasicResponse → OwnedMutationResponse

unfoldable pub response_type : OwnedMutationRequest → String
response_type (registering r) = register_entrypoint_response
response_type (unregistering id session) = unregister_entrypoint_response
response_type (beating p) = heartbeat_entrypoint_response
response_type (setting_entrypoint p) = set_entrypoint_enabled_response
response_type (setting_domain p) = set_domain_enabled_response

-- The id of a response that accepts is owned from then on.
abbrev owning_id :
    String → Bool → Option String → ConnectionOwnershipState → ConnectionOwnershipState
unfolding own
owning_id session true (some id) s = own id session s
owning_id session _ _ s = s

abbrev basic_result :
    String → Result BasicResponse CommitRejection → Result OwnedMutationResponse CommitRejection
basic_result request_id (ok response) = ok (basic (record response { request_id = request_id }))
basic_result request_id (err e) = err e

module _ (R : Runtime) where
  abbrev pub Execution : Type 0
  Execution = ConnectionOwnershipState × Task R.State × Result OwnedMutationResponse CommitRejection

  abbrev after_register :
      String
      → String
      → ConnectionOwnershipState
      → Task R.State × Result RegisterEntrypointResponse CommitRejection
      → Execution
  unfolding owning_id
  after_register request_id session s (t, err e) = (s, t, err e)
  after_register request_id session s (t, ok response) = (
    owning_id session response.accepted response.registration_id s,
    t,
    ok (registered (record response { request_id = request_id })),
  )

  abbrev after_unregister :
      String
      → String
      → ConnectionOwnershipState
      → Task R.State × Result BasicResponse CommitRejection
      → Execution
  unfolding disown
  after_unregister request_id id s (t, err e) = (s, t, err e)
  after_unregister request_id id s (t, ok response) =
      ((if response.accepted then disown id s else s), t, basic_result request_id (ok response))

  abbrev after_basic :
      String
      → ConnectionOwnershipState
      → Task R.State × Result BasicResponse CommitRejection
      → Execution
  after_basic request_id s (t, result) = (s, t, basic_result request_id result)

  unfoldable pub execute :
      Env
      → Schedule
      → String
      → OwnedMutationRequest
      → ConnectionOwnershipState
      → Task R.State
      → Execution
  unfolding register_fenced unregister_fenced heartbeat_fenced set_entrypoint_enabled_fenced
      set_domain_enabled_fenced after_register after_unregister
  execute x es request_id (registering r) s t =
      after_register request_id (nonce r) s (register_fenced R x es r t)
  execute x es request_id (unregistering id session) s t =
      after_unregister request_id id s (unregister_fenced R x es id session t)
  execute x es request_id (beating p) s t = after_basic request_id s (heartbeat_fenced p x.now t)
  execute x es request_id (setting_entrypoint p) s t =
      after_basic request_id s (set_entrypoint_enabled_fenced R x es p t)
  execute x es request_id (setting_domain p) s t =
      after_basic request_id s (set_domain_enabled_fenced R x es p t)
