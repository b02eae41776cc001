-- ===== src/Ipc/Client.antt =====
-- crates/cadder-daemon/src/ipc/client.rs and client/protocol.rs: one request over a session. Each
-- call of the connection takes its answer; a part of a session that it holds is a flag.
pub mod Errors
pub mod Outcomes
use cadder.Base.{
  ℕ, String, Bool, true, false, not, ◌&&◌, Option, none, some, List, Result, ok, err, ◌==◌,
  string_eq, ◌>>=◌, ◌>>◌, if◌then◌else◌,
}
use cadder.Ipc.Client.Errors.{
  ClientRequestContext, operation_retryable, invalid_request_error, request_frame_error,
  request_write_error, response_read_error, response_frame_error, response_eof_error,
  response_decode_error, response_validation_error, request_write_timeout_error,
  response_timeout_error, connection_no_longer_usable,
}
use cadder.Ipc.ClientError.{IpcClientError, daemon_error}
use cadder.Protocol.Errors.{ProtocolError}
use cadder.Protocol.Identifiers.{RequestId, IdentifierError, parse_request_id}
use cadder.Protocol.Version.{ProtocolVersion, current_protocol_version, version_eq}
use cadder.Protocol.Wire.{
  ResponseOutcome, success, failure, ResponseEnvelope, into_result, request_id_test,
}

pub record PreparedClientRequest : Type 0 where
  pub context : ClientRequestContext
  pub frame : List ℕ

-- `map_err`.
abbrev pub map_err {ℓ κ ι} :
    {A : Type ℓ} {E : Type κ} {F : Type ι} → (E → F) → Result A E → Result A F
map_err f (ok a) = ok a
map_err f (err e) = err (f e)

abbrev framed : ClientRequestContext → List ℕ → PreparedClientRequest
framed context frame = record { context = context; frame = frame }

abbrev encoded :
    (RequestId → Result (List ℕ) String)
    → ClientRequestContext
    → Result PreparedClientRequest IpcClientError
unfolding request_frame_error
encoded encode context =
    map_err (request_frame_error context) (encode context.request_id) >>= λ frame.
    ok (framed context frame)

-- `PreparedClientRequest::new`, over what `encode_json_frame` makes of the envelope with an id.
unfoldable pub prepare :
    (RequestId → Result (List ℕ) String)
    → String
    → String
    → Result PreparedClientRequest IpcClientError
unfolding parse_request_id invalid_request_error encoded
prepare encode operation request_id =
    map_err (λ (e : IdentifierError). invalid_request_error operation e.reason)
      (parse_request_id request_id)
    >>= λ id. encoded encode (record { operation = operation; request_id = id })

-- A call within a deadline.
pub data Awaited {ℓ} (A : Type ℓ) : Type ℓ where
  finished : A → Awaited A
  late : Awaited A

unfoldable pub write_prepared_request :
    Result (Unit {0}) String
    → Result (Unit {0}) String
    → ClientRequestContext
    → Result (Unit {0}) IpcClientError
unfolding request_write_error
write_prepared_request write_all flush request =
    map_err (request_write_error request) write_all >> map_err (request_write_error request) flush

-- The writes are those of the frame and of the buffer.
unfoldable pub write_prepared_request_until :
    Awaited (Result (Unit {0}) String × Result (Unit {0}) String)
    → ClientRequestContext
    → Result (Unit {0}) IpcClientError
unfolding write_prepared_request request_write_timeout_error operation_retryable
write_prepared_request_until (Awaited.finished (write_all, flush)) request =
    write_prepared_request write_all flush request
write_prepared_request_until Awaited.late request =
    err (request_write_timeout_error request (operation_retryable request.operation))

-- What the reader gives: a line, an error of the connection or of the framing, or the end.
pub data NextFrame (A : Type 0) : Type 0 where
  line : A → NextFrame A
  io : String → NextFrame A
  codec : String → NextFrame A
  closed : NextFrame A

abbrev is_failure : {T : Type 0} → ResponseOutcome T → Bool
is_failure (success result) = false
is_failure (failure error) = true

unfoldable pub validate_response :
    {T : Type 0} → ClientRequestContext → ResponseEnvelope T → Result T IpcClientError
unfolding response_validation_error into_result
validate_response request envelope =
    if not (envelope.protocol_version == current_protocol_version)
    then err (
        response_validation_error request
          "The daemon response uses a different exact protocol version; the operation outcome is unknown.")
    else if not (is_failure envelope.outcome) && not (envelope.operation == request.operation)
    then err (
        response_validation_error request
          "The daemon response names a different operation; the operation outcome is unknown.")
    else if not (request_id_test envelope.request_id request.request_id)
    then err (
        response_validation_error request
          "The daemon response belongs to a different request; the operation outcome is unknown.")
    else map_err IpcClientError.daemon (into_result envelope.outcome)

-- A line is what `serde_json` reads of it.
unfoldable pub read_client_response :
    {T : Type 0}
    → NextFrame (Result (ResponseEnvelope T) String)
    → ClientRequestContext
    → Result T IpcClientError
unfolding response_read_error response_frame_error response_eof_error response_decode_error
    validate_response
read_client_response (NextFrame.line (ok envelope)) request = validate_response request envelope
read_client_response (NextFrame.line (err e)) request = err (response_decode_error request e)
read_client_response (NextFrame.io e) request = err (response_read_error request e)
read_client_response (NextFrame.codec e) request = err (response_frame_error request e)
read_client_response NextFrame.closed request = err (response_eof_error request)

-- What an exchange meets.
pub record Exchange (T : Type 0) : Type 0 where
  pub write : Awaited (Result (Unit {0}) String × Result (Unit {0}) String)
  pub read : Awaited (NextFrame (Result (ResponseEnvelope T) String))

unfoldable pub read_until :
    {T : Type 0}
    → Awaited (NextFrame (Result (ResponseEnvelope T) String))
    → ClientRequestContext
    → Result T IpcClientError
unfolding read_client_response response_timeout_error operation_retryable
read_until (Awaited.finished frame) request = read_client_response frame request
read_until Awaited.late request =
    err (response_timeout_error request (operation_retryable request.operation))

unfoldable pub exchange : {T : Type 0} → Exchange T → ClientRequestContext → Result T IpcClientError
unfolding write_prepared_request_until read_until
exchange x request = write_prepared_request_until x.write request >> read_until x.read request

pub record CadderSession : Type 0 where
  pub reader : Bool
  pub writer : Bool
  pub version : ProtocolVersion
  pub usable : Bool

unfoldable pub retire : CadderSession → CadderSession
retire s = record s { usable = false; reader = false; writer = false }

abbrev daemon_answered {ℓ} : {A : Type ℓ} → Option A → Bool
daemon_answered none = false
daemon_answered (some e) = true

-- Whether the exchange guard is restored: after a result, or an error of the daemon's.
abbrev restores : {T : Type 0} → Result T IpcClientError → Bool
unfolding daemon_error
restores (ok v) = true
restores (err e) = daemon_answered (daemon_error e)

-- The guard makes the session unusable, until it is restored or its drop retires the session.
unfoldable pub request_prepared :
    {T : Type 0}
    → Exchange T
    → PreparedClientRequest
    → CadderSession
    → CadderSession × Result T IpcClientError
unfolding connection_no_longer_usable exchange restores retire
request_prepared x prepared s =
    if not s.usable
    then (s, err (connection_no_longer_usable prepared.context))
    else (let result = exchange x prepared.context in
        let guarded = record s { usable = false } in
        if restores result
        then (record guarded { usable = true }, result)
        else (retire guarded, result))
