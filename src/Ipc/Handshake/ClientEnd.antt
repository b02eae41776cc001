-- ===== src/Ipc/Handshake/ClientEnd.antt =====
-- The client's end of the handshake of crates/cadder-daemon/src/ipc/handshake.rs.
use cadder.Base.{
  String, Bool, true, false, not, Option, none, some, Result, ok, err, ◌==◌, string_eq, option_eq,
  ◌>>=◌, ◌>>◌, if◌then◌else◌,
}
use cadder.Ipc.Client.{NextFrame, map_err}
use cadder.Ipc.ClientError.{LocalIpcErrorCode, LocalIpcErrorKind, IpcClientPhase, IpcClientError}
use cadder.Protocol.Handshake.{
  client_hello_operation, ClientHello, ServerHello, HandshakeRejection, ServerHandshakeFrame,
}
use cadder.Protocol.Identifiers.{RequestId}
use cadder.Protocol.Version.{current_protocol_version, version_eq}
use cadder.Protocol.Wire.{request_id_test, same_request}
use cadder.Ipc.Handshake.{NegotiatedSession}

unfoldable pub handshake_local_error :
    IpcClientPhase
    → LocalIpcErrorCode
    → String
    → String
    → Bool
    → RequestId
    → Option String
    → IpcClientError
handshake_local_error phase code message guidance retryable request_id source =
    IpcClientError.local (record {
      kind = LocalIpcErrorKind.transport;
      phase = phase;
      code = code;
      message = message;
      guidance = some guidance;
      retryable = retryable;
      request_id = some request_id;
      operation = some client_hello_operation;
      source = source;
    })

unfoldable pub stale_handshake_error : RequestId → IpcClientError
unfolding handshake_local_error
stale_handshake_error id =
    handshake_local_error IpcClientPhase.response_validate LocalIpcErrorCode.stale_instance
      "The connected daemon does not own the selected runtime endpoint; no operation was sent."
      "Reconnect to the selected runtime endpoint once." true id none

unfoldable pub handshake_protocol_violation : RequestId → String → IpcClientError
unfolding handshake_local_error
handshake_protocol_violation id message =
    handshake_local_error IpcClientPhase.response_validate LocalIpcErrorCode.protocol_violation
      message "Restart the Cadder daemon with a compatible build, then retry." false id none

unfoldable pub validate_server_hello :
    ServerHello → String → RequestId → Result NegotiatedSession IpcClientError
unfolding handshake_protocol_violation stale_handshake_error
validate_server_hello hello runtime_id request_id =
    if not (request_id_test hello.request_id request_id)
    then err (
        handshake_protocol_violation request_id
          "The daemon handshake response used a different request ID.")
    else if not (hello.runtime_id == runtime_id)
    then err (stale_handshake_error request_id)
    else if not (hello.protocol_version == current_protocol_version)
    then err (
        handshake_protocol_violation request_id
          "The daemon accepted a handshake whose published protocol range is incompatible.")
    else ok (record { version = hello.protocol_version })

unfoldable pub validate_rejection :
    HandshakeRejection → String → RequestId → Result NegotiatedSession IpcClientError
unfolding handshake_protocol_violation stale_handshake_error
validate_rejection rejection instance_key request_id =
    if not (same_request rejection.error.request_id request_id)
    then err (
        handshake_protocol_violation request_id
          "The daemon handshake rejection used a different request ID.")
    else if not (rejection.runtime_id == instance_key)
    then err (stale_handshake_error request_id)
    else err (IpcClientError.daemon rejection.error)

abbrev validate_frame :
    ServerHandshakeFrame → String → RequestId → Result NegotiatedSession IpcClientError
unfolding validate_server_hello validate_rejection
validate_frame (ServerHandshakeFrame.accepted hello) key id = validate_server_hello hello key id
validate_frame (ServerHandshakeFrame.rejected rejection) key id =
    validate_rejection rejection key id

-- What the client sends.
unfoldable pub client_hello : RequestId → String → ClientHello
client_hello id instance_key = record {
  request_id = id;
  runtime_id = instance_key;
  protocol_version = current_protocol_version;
}

abbrev encode_error : RequestId → String → IpcClientError
unfolding handshake_local_error
encode_error id e =
    handshake_local_error IpcClientPhase.request_encode LocalIpcErrorCode.frame
      "Cadder could not encode its local daemon handshake; no operation was sent."
      "Report this Cadder handshake serialization error." false id (some e)

abbrev write_error : RequestId → String → IpcClientError
unfolding handshake_local_error
write_error id e =
    handshake_local_error IpcClientPhase.request_write LocalIpcErrorCode.transport_write
      "Cadder lost the local connection while sending the daemon handshake; no operation was sent."
      "Retry the connection once." true id (some e)

abbrev flush_error : RequestId → String → IpcClientError
unfolding handshake_local_error
flush_error id e =
    handshake_local_error IpcClientPhase.request_write LocalIpcErrorCode.transport_write
      "Cadder could not finish sending the local daemon handshake; no operation was sent."
      "Retry the connection once." true id (some e)

abbrev read_io_error : RequestId → String → IpcClientError
unfolding handshake_local_error
read_io_error id e =
    handshake_local_error IpcClientPhase.response_read LocalIpcErrorCode.transport_read
      "Cadder lost the local connection while waiting for the daemon handshake; no operation was sent."
      "Reconnect to the selected runtime endpoint once." true id (some e)

abbrev read_codec_error : RequestId → String → IpcClientError
unfolding handshake_local_error
read_codec_error id e =
    handshake_local_error IpcClientPhase.response_read LocalIpcErrorCode.frame
      "Cadder rejected an invalid or oversized daemon handshake response; no operation was sent."
      "Restart the Cadder daemon with a compatible build, then retry." false id (some e)

abbrev closed_error : RequestId → IpcClientError
unfolding handshake_local_error
closed_error id =
    handshake_local_error IpcClientPhase.response_read LocalIpcErrorCode.unexpected_eof
      "The daemon closed the connection before confirming its local endpoint; no operation was sent."
      "Retry the connection once." true id none

abbrev decode_error : RequestId → String → IpcClientError
unfolding handshake_local_error
decode_error id e =
    handshake_local_error IpcClientPhase.response_decode LocalIpcErrorCode.frame
      "Cadder could not decode the daemon handshake response; no operation was sent."
      "Restart the Cadder daemon with a compatible build, then retry." false id (some e)

abbrev next_line :
    RequestId
    → NextFrame (Result ServerHandshakeFrame String)
    → Result ServerHandshakeFrame IpcClientError
unfolding decode_error read_io_error read_codec_error closed_error
next_line id (NextFrame.line l) = map_err (decode_error id) l
next_line id (NextFrame.io e) = err (read_io_error id e)
next_line id (NextFrame.codec e) = err (read_codec_error id e)
next_line id NextFrame.closed = err (closed_error id)

-- The handshake with a fresh id: the encoding of the hello, its two writes, and the frame read.
unfoldable pub perform_client_handshake :
    RequestId
    → String
    → Result (Unit {0}) String
    → Result (Unit {0}) String
    → Result (Unit {0}) String
    → NextFrame (Result ServerHandshakeFrame String)
    → Result NegotiatedSession IpcClientError
unfolding encode_error write_error flush_error next_line validate_frame
perform_client_handshake id instance_key encode write_all flush next =
    map_err (encode_error id) encode
    >> map_err (write_error id) write_all
    >> map_err (flush_error id) flush
    >> (next_line id next >>= λ frame. validate_frame frame instance_key id)
