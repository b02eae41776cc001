-- ===== src/Ipc/ClientError.antt =====
-- crates/cadder-daemon/src/ipc_client_error.rs: what a client reports, a rejection by the daemon or a
-- failure of its own. `LocalIpcErrorContext` has the fields of `LocalIpcError`. The error below, of
-- another library, is its text.
use cadder.Base.{◌==◌, string_eq, ◌||◌, String, Bool, true, false, Option, none, some}
use cadder.Protocol.ErrorKind.{ProtocolErrorKind}
use cadder.Protocol.Errors.{ProtocolError}
use cadder.Protocol.Identifiers.{RequestId}

pub data LocalIpcErrorCode : Type 0 where
  connection_closed daemon_not_found daemon_start_failed daemon_unavailable frame
        incompatible_protocol invalid_endpoint invalid_input invalid_request invalid_runtime
        permission_denied protocol_violation stale_instance timeout transport_connect transport_read
        transport_write unexpected_eof :
      LocalIpcErrorCode

abbrev pub as_str : LocalIpcErrorCode → String
as_str LocalIpcErrorCode.connection_closed = "connection_closed"
as_str LocalIpcErrorCode.daemon_not_found = "daemon_not_found"
as_str LocalIpcErrorCode.daemon_start_failed = "daemon_start_failed"
as_str LocalIpcErrorCode.daemon_unavailable = "daemon_unavailable"
as_str LocalIpcErrorCode.frame = "frame"
as_str LocalIpcErrorCode.incompatible_protocol = "incompatible_protocol"
as_str LocalIpcErrorCode.invalid_endpoint = "invalid_endpoint"
as_str LocalIpcErrorCode.invalid_input = "invalid_input"
as_str LocalIpcErrorCode.invalid_request = "invalid_request"
as_str LocalIpcErrorCode.invalid_runtime = "invalid_runtime"
as_str LocalIpcErrorCode.permission_denied = "permission_denied"
as_str LocalIpcErrorCode.protocol_violation = "protocol_violation"
as_str LocalIpcErrorCode.stale_instance = "stale_instance"
as_str LocalIpcErrorCode.timeout = "timeout"
as_str LocalIpcErrorCode.transport_connect = "transport_connect"
as_str LocalIpcErrorCode.transport_read = "transport_read"
as_str LocalIpcErrorCode.transport_write = "transport_write"
as_str LocalIpcErrorCode.unexpected_eof = "unexpected_eof"

pub data LocalIpcErrorKind : Type 0 where
  transport timeout : LocalIpcErrorKind

pub data IpcClientPhase : Type 0 where
  endpoint_resolve connect daemon_launch daemon_readiness request_encode request_write response_read
        response_decode response_validate :
      IpcClientPhase

pub record LocalIpcError : Type 0 where
  pub kind : LocalIpcErrorKind
  pub phase : IpcClientPhase
  pub code : LocalIpcErrorCode
  pub message : String
  pub guidance : Option String
  pub retryable : Bool
  pub request_id : Option RequestId
  pub operation : Option String
  pub source : Option String

pub data IpcClientError : Type 0 where
  daemon : ProtocolError → IpcClientError
  local : LocalIpcError → IpcClientError

abbrev get_or {ℓ} : {A : Type ℓ} → A → Option A → Option A
get_or a none = some a
get_or a (some b) = some b

unfoldable pub with_request_context : RequestId → String → IpcClientError → IpcClientError
with_request_context id operation (IpcClientError.daemon e) = IpcClientError.daemon e
with_request_context id operation (IpcClientError.local e) =
    IpcClientError.local
      (record e { request_id = get_or id e.request_id; operation = get_or operation e.operation })

unfoldable pub code : IpcClientError → String
code (IpcClientError.daemon e) = e.code.text
code (IpcClientError.local e) = as_str e.code

unfoldable pub retryable : IpcClientError → Bool
retryable (IpcClientError.daemon e) = e.retryable
retryable (IpcClientError.local e) = e.retryable

unfoldable pub request_id : IpcClientError → Option RequestId
request_id (IpcClientError.daemon e) = e.request_id
request_id (IpcClientError.local e) = e.request_id

unfoldable pub daemon_error : IpcClientError → Option ProtocolError
daemon_error (IpcClientError.daemon e) = some e
daemon_error (IpcClientError.local e) = none

-- `kind == ProtocolErrorKind::StaleInstance`, and the code's.
abbrev is_stale_kind : ProtocolErrorKind → Bool
is_stale_kind ProtocolErrorKind.stale_instance = true
is_stale_kind _ = false

abbrev is_stale_code : LocalIpcErrorCode → Bool
is_stale_code LocalIpcErrorCode.stale_instance = true
is_stale_code _ = false

unfoldable pub is_stale_instance : IpcClientError → Bool
is_stale_instance (IpcClientError.daemon e) = is_stale_kind e.kind
is_stale_instance (IpcClientError.local e) = is_stale_code e.code

unfoldable pub message : IpcClientError → String
message (IpcClientError.daemon e) = e.message
message (IpcClientError.local e) = e.message

unfoldable pub guidance : IpcClientError → Option String
guidance (IpcClientError.daemon e) = e.guidance
guidance (IpcClientError.local e) = e.guidance

unfoldable pub local_error : IpcClientError → Option LocalIpcError
local_error (IpcClientError.daemon e) = none
local_error (IpcClientError.local e) = some e

abbrev is_denied_kind : ProtocolErrorKind → Bool
is_denied_kind ProtocolErrorKind.access_denied = true
is_denied_kind _ = false

abbrev is_denied_code : LocalIpcErrorCode → Bool
is_denied_code LocalIpcErrorCode.permission_denied = true
is_denied_code _ = false

unfoldable pub is_permission_denied : IpcClientError → Bool
is_permission_denied (IpcClientError.daemon e) =
    is_denied_kind e.kind || e.code.text == "permission_denied"
is_permission_denied (IpcClientError.local e) = is_denied_code e.code

abbrev is_unavailable_code : LocalIpcErrorCode → Bool
is_unavailable_code LocalIpcErrorCode.daemon_unavailable = true
is_unavailable_code _ = false

unfoldable pub is_daemon_unavailable : IpcClientError → Bool
is_daemon_unavailable (IpcClientError.daemon e) = false
is_daemon_unavailable (IpcClientError.local e) = is_unavailable_code e.code

abbrev is_incompatible_kind : ProtocolErrorKind → Bool
is_incompatible_kind ProtocolErrorKind.incompatible_protocol_version = true
is_incompatible_kind _ = false

abbrev is_incompatible_code : LocalIpcErrorCode → Bool
is_incompatible_code LocalIpcErrorCode.incompatible_protocol = true
is_incompatible_code _ = false

unfoldable pub is_protocol_incompatible : IpcClientError → Bool
is_protocol_incompatible (IpcClientError.daemon e) = is_incompatible_kind e.kind
is_protocol_incompatible (IpcClientError.local e) = is_incompatible_code e.code
