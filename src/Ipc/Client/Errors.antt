-- ===== src/Ipc/Client/Errors.antt =====
-- The errors of crates/cadder-daemon/src/ipc/client/protocol.rs: a failure of one phase of an
-- exchange, which says whether the request may be sent again.
use cadder.Base.{String, Bool, true, false, Option, none, some}
use cadder.Ipc.ClientError.{LocalIpcErrorCode, LocalIpcErrorKind, IpcClientPhase, IpcClientError}
use cadder.Protocol.Identifiers.{RequestId}
use cadder.Protocol.Operations.{OperationDefinition, lookup_operation}

pub record ClientRequestContext : Type 0 where
  pub operation : String
  pub request_id : RequestId

abbrev retryable_by : Option OperationDefinition → Bool
retryable_by none = false
retryable_by (some d) = d.timeout_retryable

unfoldable pub operation_retryable : String → Bool
unfolding lookup_operation
operation_retryable operation = retryable_by (lookup_operation operation)

unfoldable pub invalid_request_error : String → String → IpcClientError
invalid_request_error operation error = IpcClientError.local (record {
  kind = LocalIpcErrorKind.transport;
  phase = IpcClientPhase.request_encode;
  code = LocalIpcErrorCode.invalid_request;
  message = "Cadder rejected an invalid local request before sending it.";
  guidance = some "Correct the request ID and retry the operation.";
  retryable = false;
  request_id = none;
  operation = some operation;
  source = some error;
})

unfoldable pub request_frame_error : ClientRequestContext → String → IpcClientError
request_frame_error request error = IpcClientError.local (record {
  kind = LocalIpcErrorKind.transport;
  phase = IpcClientPhase.request_encode;
  code = LocalIpcErrorCode.frame;
  message = "Cadder rejected a request that does not fit one bounded IPC frame; nothing was sent.";
  guidance = some "Reduce the request payload below 1 MiB and retry the operation.";
  retryable = false;
  request_id = some request.request_id;
  operation = some request.operation;
  source = some error;
})

unfoldable pub request_write_error : ClientRequestContext → String → IpcClientError
unfolding operation_retryable
request_write_error request error = IpcClientError.local (record {
  kind = LocalIpcErrorKind.transport;
  phase = IpcClientPhase.request_write;
  code = LocalIpcErrorCode.transport_write;
  message =
      "Cadder lost the daemon connection while sending the request; the operation outcome is unknown.";
  guidance = some "Check the current daemon state before retrying the operation.";
  retryable = operation_retryable request.operation;
  request_id = some request.request_id;
  operation = some request.operation;
  source = some error;
})

unfoldable pub response_read_error : ClientRequestContext → String → IpcClientError
unfolding operation_retryable
response_read_error request error = IpcClientError.local (record {
  kind = LocalIpcErrorKind.transport;
  phase = IpcClientPhase.response_read;
  code = LocalIpcErrorCode.transport_read;
  message =
      "Cadder lost the daemon connection before receiving a complete response; the operation outcome is unknown.";
  guidance = some "Check the current daemon state before retrying the operation.";
  retryable = operation_retryable request.operation;
  request_id = some request.request_id;
  operation = some request.operation;
  source = some error;
})

unfoldable pub response_frame_error : ClientRequestContext → String → IpcClientError
response_frame_error request error = IpcClientError.local (record {
  kind = LocalIpcErrorKind.transport;
  phase = IpcClientPhase.response_read;
  code = LocalIpcErrorCode.frame;
  message =
      "Cadder rejected an invalid or oversized daemon response; the operation outcome is unknown.";
  guidance =
      some
        "Inspect daemon diagnostics and verify that the client and daemon use compatible framing limits.";
  retryable = false;
  request_id = some request.request_id;
  operation = some request.operation;
  source = some error;
})

unfoldable pub response_eof_error : ClientRequestContext → IpcClientError
unfolding operation_retryable
response_eof_error request = IpcClientError.local (record {
  kind = LocalIpcErrorKind.transport;
  phase = IpcClientPhase.response_read;
  code = LocalIpcErrorCode.unexpected_eof;
  message =
      "The daemon closed the connection before returning a response; the operation outcome is unknown.";
  guidance = some "Check the current daemon state before retrying the operation.";
  retryable = operation_retryable request.operation;
  request_id = some request.request_id;
  operation = some request.operation;
  source = some "daemon closed the IPC connection before returning a response";
})

unfoldable pub response_decode_error : ClientRequestContext → String → IpcClientError
response_decode_error request error = IpcClientError.local (record {
  kind = LocalIpcErrorKind.transport;
  phase = IpcClientPhase.response_decode;
  code = LocalIpcErrorCode.frame;
  message = "Cadder could not decode the daemon response; the operation outcome is unknown.";
  guidance =
      some
        "Verify that the Cadder client and daemon versions are compatible, then inspect daemon diagnostics.";
  retryable = false;
  request_id = some request.request_id;
  operation = some request.operation;
  source = some error;
})

unfoldable pub response_validation_error : ClientRequestContext → String → IpcClientError
response_validation_error request message = IpcClientError.local (record {
  kind = LocalIpcErrorKind.transport;
  phase = IpcClientPhase.response_validate;
  code = LocalIpcErrorCode.protocol_violation;
  message = message;
  guidance =
      some
        "Verify that the Cadder client and daemon versions are compatible, then inspect daemon diagnostics.";
  retryable = false;
  request_id = some request.request_id;
  operation = some request.operation;
  source = none;
})

unfoldable pub request_write_timeout_error : ClientRequestContext → Bool → IpcClientError
request_write_timeout_error request retryable = IpcClientError.local (record {
  kind = LocalIpcErrorKind.timeout;
  phase = IpcClientPhase.request_write;
  code = LocalIpcErrorCode.timeout;
  message =
      "Cadder could not send the complete request before the local deadline; the operation outcome is unknown.";
  guidance = some "Check the current daemon state before retrying the operation.";
  retryable = retryable;
  request_id = some request.request_id;
  operation = some request.operation;
  source = none;
})

unfoldable pub response_timeout_error : ClientRequestContext → Bool → IpcClientError
response_timeout_error request retryable = IpcClientError.local (record {
  kind = LocalIpcErrorKind.timeout;
  phase = IpcClientPhase.response_read;
  code = LocalIpcErrorCode.timeout;
  message =
      "The daemon did not return a complete response before the local deadline; the operation outcome is unknown.";
  guidance = some "Check the current daemon state before retrying the operation.";
  retryable = retryable;
  request_id = some request.request_id;
  operation = some request.operation;
  source = none;
})

unfoldable pub connection_no_longer_usable : ClientRequestContext → IpcClientError
connection_no_longer_usable request = IpcClientError.local (record {
  kind = LocalIpcErrorKind.transport;
  phase = IpcClientPhase.connect;
  code = LocalIpcErrorCode.connection_closed;
  message = "This Cadder client session is closed; no new request was sent.";
  guidance = some "Open a new Cadder client session, then retry if the operation is safe.";
  retryable = true;
  request_id = some request.request_id;
  operation = some request.operation;
  source = none;
})
