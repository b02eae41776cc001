-- ===== src/Ipc/Framing/Delivery.antt =====
-- What the daemon writes is what the client reads.
use cadder.Base.{
  String, ◌≡◌, refl, sym, ap, ◌∙◌, subst, false, none, some, Result, ok, err, ◌==◌, string_eq,
  ==→eq, ==_refl, arith, Bool-cases, inl, inr,
}
use cadder.Ipc.Client.{NextFrame, validate_response, read_client_response}
use cadder.Ipc.Client.Errors.{ClientRequestContext}
use cadder.Ipc.ClientError.{IpcClientError}
use cadder.Ipc.Codec.{IpcCodecError}
use cadder.Ipc.Framing.{PayloadValue, request_operation_for_response, encode_envelope}
use cadder.Protocol.Errors.{ProtocolError, with_request_id, ProtocolErrorResponse}
use cadder.Protocol.Identifiers.{RequestId, parse_request_id}
use cadder.Protocol.Operations.{protocol_error_response}
use cadder.Protocol.Version.{current_protocol_version}
use cadder.Protocol.Wire.{
  ResponseEnvelope, success_envelope, failure_envelope, serialize_response, deserialize_response,
}
use cadder.Protocol.Wire.RoundTrip.{IsCorrelated, deserialize_response_iff}

not_error :
    (response operation : String)
    → request_operation_for_response response ≡ some operation
    → (response == protocol_error_response) ≡ false
unfolding request_operation_for_response
not_error response operation named = elim (Bool-cases (response == protocol_error_response)) [
  | inr other ↦ other
  | inl same ↦ absurd (
      cc (
        subst (λ r. request_operation_for_response r ≡ some operation)
          (==→eq response protocol_error_response same) named))
]

module _ {T : Type 0} where
  -- The client's frame of an envelope; a connection whose response does not encode is closed.
  abbrev pub received :
      Result (ResponseEnvelope T) IpcCodecError → NextFrame (Result (ResponseEnvelope T) String)
  unfolding serialize_response deserialize_response
  received (ok e) = NextFrame.line (deserialize_response (serialize_response e))
  received (err e) = NextFrame.closed

  -- The value of a response, and of an error response.
  abbrev pub value_of : RequestId → T → PayloadValue T
  value_of id v = record { request_id = some id.text; error = none; rest = v }

  abbrev pub error_value : ProtocolErrorResponse → T → PayloadValue T
  error_value r rest = record {
    request_id = some r.request_id;
    error = some (ok r.error);
    rest = rest;
  }

  encode-success :
      (response : String) (request : ClientRequestContext) (v : T)
      → request_operation_for_response response ≡ some request.operation
      → parse_request_id request.request_id.text ≡ ok request.request_id
      → encode_envelope response (ok (value_of request.request_id v))
        ≡ ok (success_envelope current_protocol_version request.operation request.request_id v)
  unfolding encode_envelope
  encode-success response request v named valid =
      let other = not_error response request.operation named in ground (arith, valid, named, other)

  encode-failure :
      (r : ProtocolErrorResponse) (id : RequestId) (rest : T)
      → parse_request_id r.request_id ≡ ok id
      → encode_envelope protocol_error_response (ok (error_value r rest))
        ≡ ok (failure_envelope current_protocol_version "protocol-error" id r.error)
  unfolding encode_envelope
  encode-failure r id rest valid = ground (arith, valid)

  -- An envelope that names its request in its error comes as it was written.
  read_written :
      (request : ClientRequestContext) (e : ResponseEnvelope T)
      → IsCorrelated e
      → read_client_response (received (ok e)) request ≡ validate_response request e
  unfolding read_client_response received
  read_written request e h =
      ap (λ d. read_client_response (NextFrame.line d) request)
        ((deserialize_response_iff (serialize_response e) e).1 (refl, h))

  read_success :
      (request : ClientRequestContext) (v : T)
      → validate_response request
          (success_envelope current_protocol_version request.operation request.request_id v)
        ≡ ok v
  unfolding validate_response success_envelope
  read_success request v =
      ground (arith, ==_refl request.operation, ==_refl request.request_id.text)

  read_failure :
      (request : ClientRequestContext) (operation : String) (e : ProtocolError)
      → validate_response request
          (failure_envelope {T = T} current_protocol_version operation request.request_id e)
        ≡ err (IpcClientError.daemon (with_request_id request.request_id e))
  unfolding validate_response failure_envelope
  read_failure request operation e = ground (arith, ==_refl request.request_id.text)

  -- A response, or an error, that the daemon writes for a request with a valid id is what the client
  -- of that request reads as its result: the response is read if it is of the type of the request's
  -- operation, and the error comes with the request's id.
  pub response_arrives :
      (response : String) (request : ClientRequestContext) (v : T) (r : ProtocolErrorResponse)
      → parse_request_id request.request_id.text ≡ ok request.request_id
      → request_operation_for_response response ≡ some request.operation
      → r.request_id ≡ request.request_id.text
      → (read_client_response
            (received (encode_envelope response (ok (value_of request.request_id v))))
            request
          ≡ ok v)
        × (read_client_response
              (received (encode_envelope protocol_error_response (ok (error_value r v))))
              request
            ≡ err (IpcClientError.daemon (with_request_id request.request_id r.error)))
  unfolding success_envelope failure_envelope
  response_arrives response request v r valid named same =
      let answered =
        success_envelope current_protocol_version request.operation request.request_id v in
      let failed =
        failure_envelope {T = T} current_protocol_version "protocol-error" request.request_id
          r.error in
      let identified = subst (λ t. parse_request_id t ≡ ok request.request_id) (sym same) valid in
      (
        ap (λ e. read_client_response (received e) request)
              (encode-success response request v named valid)
            ∙ read_written request answered tt
            ∙ read_success request v,
        ap (λ e. read_client_response (received e) request)
              (encode-failure r request.request_id v identified)
            ∙ read_written request failed refl
            ∙ read_failure request "protocol-error" r.error,
      )
