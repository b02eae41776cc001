-- ===== src/Protocol/Operations.antt =====
-- crates/cadder-ipc/src/message_types.rs and operations.rs: the operations of the protocol, and the
-- authorization of a request's header.
use cadder.Base.{
  String, Bool, true, false, not, Option, none, some, List, [], ◌∷◌, Result, ok, err, find, ◌==◌,
  string_eq, if◌then◌else◌,
}
use cadder.Protocol.Errors.{
  ProtocolError, incompatible_protocol_version_pair, unsupported_operation, with_request_id,
}
use cadder.Protocol.Identifiers.{RequestId}
use cadder.Protocol.Version.{ProtocolVersion, current_protocol_version, version_eq}

abbrev pub register_entrypoint_request : String
register_entrypoint_request = "register-entrypoint-request"

abbrev pub unregister_entrypoint_request : String
unregister_entrypoint_request = "unregister-entrypoint-request"

abbrev pub heartbeat_entrypoint_request : String
heartbeat_entrypoint_request = "heartbeat-entrypoint-request"

abbrev pub query_state_request : String
query_state_request = "query-state-request"

abbrev pub set_entrypoint_enabled_request : String
set_entrypoint_enabled_request = "set-entrypoint-enabled-request"

abbrev pub set_domain_enabled_request : String
set_domain_enabled_request = "set-domain-enabled-request"

abbrev pub query_logs_request : String
query_logs_request = "query-logs-request"

abbrev pub shutdown_daemon_request : String
shutdown_daemon_request = "shutdown-daemon-request"

abbrev pub register_entrypoint_response : String
register_entrypoint_response = "register-entrypoint-response"

abbrev pub unregister_entrypoint_response : String
unregister_entrypoint_response = "unregister-entrypoint-response"

abbrev pub heartbeat_entrypoint_response : String
heartbeat_entrypoint_response = "heartbeat-entrypoint-response"

abbrev pub query_state_response : String
query_state_response = "query-state-response"

abbrev pub set_entrypoint_enabled_response : String
set_entrypoint_enabled_response = "set-entrypoint-enabled-response"

abbrev pub set_domain_enabled_response : String
set_domain_enabled_response = "set-domain-enabled-response"

abbrev pub query_logs_response : String
query_logs_response = "query-logs-response"

abbrev pub shutdown_daemon_response : String
shutdown_daemon_response = "shutdown-daemon-response"

abbrev pub protocol_error_response : String
protocol_error_response = "protocol-error-response"

pub data OperationAccess : Type 0 where
  read_only mutation : OperationAccess

pub data OperationDeadlineClass : Type 0 where
  ordinary reload shutdown : OperationDeadlineClass

pub record OperationDefinition : Type 0 where
  pub name : String
  pub access : OperationAccess
  pub deadline : OperationDeadlineClass
  pub timeout_retryable : Bool

abbrev definition : String → OperationAccess → OperationDeadlineClass → Bool → OperationDefinition
definition name access deadline timeout_retryable = record {
  name = name;
  access = access;
  deadline = deadline;
  timeout_retryable = timeout_retryable;
}

abbrev pub operations : List OperationDefinition
operations =
    definition register_entrypoint_request mutation reload false
    ∷ definition unregister_entrypoint_request mutation reload false
    ∷ definition heartbeat_entrypoint_request mutation ordinary true
    ∷ definition query_state_request read_only ordinary true
    ∷ definition set_entrypoint_enabled_request mutation reload false
    ∷ definition set_domain_enabled_request mutation reload false
    ∷ definition query_logs_request read_only ordinary true
    ∷ definition shutdown_daemon_request mutation shutdown false
    ∷ []

unfoldable pub lookup_operation : String → Option OperationDefinition
lookup_operation name = find (λ operation. operation.name == name) operations

-- A request whose payload, a text, is not yet decoded.
pub record RawRequestEnvelope : Type 0 where
  pub protocol_version : ProtocolVersion
  pub operation : String
  pub request_id : RequestId
  pub payload : String

pub record AuthorizedRequestEnvelope : Type 0 where
  pub definition : OperationDefinition
  pub envelope : RawRequestEnvelope

unfoldable pub authorized_by :
    RawRequestEnvelope → Option OperationDefinition → Result AuthorizedRequestEnvelope ProtocolError
unfolding unsupported_operation
authorized_by e (some d) = ok (record { definition = d; envelope = e })
authorized_by e none = err (with_request_id e.request_id (unsupported_operation e.operation))

unfoldable pub authorize_envelope :
    RawRequestEnvelope → Result AuthorizedRequestEnvelope ProtocolError
unfolding lookup_operation authorized_by incompatible_protocol_version_pair
authorize_envelope e =
    if not (e.protocol_version == current_protocol_version)
    then err (
        with_request_id e.request_id
          (incompatible_protocol_version_pair e.protocol_version current_protocol_version))
    else authorized_by e (lookup_operation e.operation)
