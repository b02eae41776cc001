-- ===== src/Ipc/Framing.antt =====
-- `encode_envelope` of crates/cadder-daemon/src/ipc/framing.rs: the envelope of a response, from its
-- type and its JSON object.
pub mod Delivery
use Prim.Native.String as Str
use cadder.Base.{
  String, Bool, true, false, Option, none, some, Result, ok, err, ◌==◌, string_eq, if◌then◌else◌,
}
use cadder.Ipc.Codec.{IpcCodecError, serialization}
use cadder.Protocol.Errors.{ProtocolError}
use cadder.Protocol.Identifiers.{RequestId, IdentifierError, parse_request_id}
use cadder.Protocol.Operations.{
  register_entrypoint_request, unregister_entrypoint_request, heartbeat_entrypoint_request,
  query_state_request, set_entrypoint_enabled_request, set_domain_enabled_request,
  query_logs_request, shutdown_daemon_request, register_entrypoint_response,
  unregister_entrypoint_response, heartbeat_entrypoint_response, query_state_response,
  set_entrypoint_enabled_response, set_domain_enabled_response, query_logs_response,
  shutdown_daemon_response, protocol_error_response,
}
use cadder.Protocol.Version.{current_protocol_version}
use cadder.Protocol.Wire.{ResponseEnvelope, success_envelope, failure_envelope}

-- The JSON object of a response: its `requestId`, if that is a text, its `error`, if it has one and
-- as what it is read, and the object without its `requestId`.
pub record PayloadValue (T : Type 0) : Type 0 where
  pub request_id : Option String
  pub error : Option (Result ProtocolError String)
  pub rest : T

unfoldable pub request_operation_for_response : String → Option String
request_operation_for_response response =
    if response == register_entrypoint_response
    then some register_entrypoint_request
    else if response == unregister_entrypoint_response
    then some unregister_entrypoint_request
    else if response == heartbeat_entrypoint_response
    then some heartbeat_entrypoint_request
    else if response == query_state_response
    then some query_state_request
    else if response == set_entrypoint_enabled_response
    then some set_entrypoint_enabled_request
    else if response == set_domain_enabled_response
    then some set_domain_enabled_request
    else if response == query_logs_response
    then some query_logs_request
    else if response == shutdown_daemon_response
    then some shutdown_daemon_request
    else none

module _ {T : Type 0} where
  abbrev failed :
      RequestId → Option (Result ProtocolError String) → Result (ResponseEnvelope T) IpcCodecError
  unfolding failure_envelope
  failed id none = err (IpcCodecError.serialization "a failed response requires an error")
  failed id (some (err e)) = err (IpcCodecError.serialization e)
  failed id (some (ok error)) =
      ok (failure_envelope current_protocol_version "protocol-error" id error)

  abbrev succeeded :
      String → RequestId → T → Option String → Result (ResponseEnvelope T) IpcCodecError
  unfolding success_envelope
  succeeded message_type id rest none =
      err (
        IpcCodecError.serialization
          (Str.◌++◌ "unknown response type `" (Str.◌++◌ message_type "`")))
  succeeded message_type id rest (some operation) =
      ok (success_envelope current_protocol_version operation id rest)

  abbrev identified :
      String
      → PayloadValue T
      → Result RequestId IdentifierError
      → Result (ResponseEnvelope T) IpcCodecError
  unfolding failed succeeded request_operation_for_response
  identified message_type p (err e) = err (IpcCodecError.serialization e.reason)
  identified message_type p (ok id) =
      if message_type == protocol_error_response
      then failed id p.error
      else succeeded message_type id p.rest (request_operation_for_response message_type)

  abbrev identified_by :
      String → PayloadValue T → Option String → Result (ResponseEnvelope T) IpcCodecError
  unfolding identified parse_request_id
  identified_by message_type p none =
      err (IpcCodecError.serialization "a response requires a correlated request ID")
  identified_by message_type p (some value) = identified message_type p (parse_request_id value)

  -- The payload is what `serde_json::to_value` gives.
  unfoldable pub encode_envelope :
      String → Result (PayloadValue T) String → Result (ResponseEnvelope T) IpcCodecError
  unfolding identified_by
  encode_envelope message_type (err e) = err (IpcCodecError.serialization e)
  encode_envelope message_type (ok p) = identified_by message_type p p.request_id
