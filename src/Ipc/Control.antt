-- ===== src/Ipc/Control.antt =====
-- crates/cadder-daemon/src/ipc/control.rs: the errors that a connection sends by itself.
use Prim.Native.String as Str
use cadder.Base.{String, false, Option, none, some, Result, ok, err}
use cadder.Ipc.Client.{NextFrame}
use cadder.Protocol.ErrorKind.{ProtocolErrorKind}
use cadder.Protocol.Errors.{new_error, known, ProtocolErrorResponse, rejected}
use cadder.Protocol.Identifiers.{RequestId}
use cadder.Protocol.Operations.{OperationDefinition, RawRequestEnvelope}

pub data ConnectionAction : Type 0 where
  continue close : ConnectionAction

pub data ConcurrentRead : Type 0 where
  pipelined : Option RequestId → ConcurrentRead
  closed : ConcurrentRead

-- The id of a line that is a request.
abbrev pipelined_request_id : Result RawRequestEnvelope String → Option RequestId
pipelined_request_id (ok e) = some e.request_id
pipelined_request_id (err e) = none

unfoldable pub classify_concurrent_read :
    NextFrame (Result RawRequestEnvelope String) → ConcurrentRead
classify_concurrent_read (NextFrame.line l) = ConcurrentRead.pipelined (pipelined_request_id l)
classify_concurrent_read (NextFrame.io e) = ConcurrentRead.pipelined none
classify_concurrent_read (NextFrame.codec e) = ConcurrentRead.pipelined none
classify_concurrent_read NextFrame.closed = ConcurrentRead.closed

unfoldable pub operation_timeout_error :
    Option RequestId → OperationDefinition → ProtocolErrorResponse
unfolding rejected new_error
operation_timeout_error id definition = rejected id (
    new_error ProtocolErrorKind.timeout (known "timeout")
      (Str.◌++◌ "Cadder did not finish `"
        (Str.◌++◌ definition.name "` before its local operation deadline; the outcome is unknown."))
      (some "Check the current daemon state before retrying the operation.")
      definition.timeout_retryable)

abbrev shutdown_error : Option RequestId → String → ProtocolErrorResponse
unfolding rejected new_error
shutdown_error id message = rejected id (
    new_error ProtocolErrorKind.shutting_down (known "shutting_down") message
      (some "Wait for the daemon to stop, then start it before retrying the operation.") false)

unfoldable pub shutting_down_error : Option RequestId → ProtocolErrorResponse
unfolding shutdown_error
shutting_down_error id =
    shutdown_error id "The daemon is shutting down and does not accept new requests."

unfoldable pub request_shutting_down_error : Option RequestId → ProtocolErrorResponse
unfolding shutdown_error
request_shutting_down_error id =
    shutdown_error id "This request did not complete because the daemon is shutting down."

unfoldable pub pipelined_error : Option RequestId → ProtocolErrorResponse
unfolding rejected new_error
pipelined_error id = rejected id (
    new_error ProtocolErrorKind.protocol_violation (known "pipelined_request")
      "Cadder accepts one active request per local IPC connection."
      (some "Wait for the current response before sending the next request.") false)
