-- ===== src/Examples/Frames.antt =====
-- Frames, their writes, and the delivery of a response.
use Prim.Native.Nat.{ℕ}
use cadder.Base.{◌≡◌, refl, true, false, some, List, [], ◌∷◌, ok, err}
use cadder.Ipc.Client.{Awaited, read_client_response}
use cadder.Ipc.Client.Errors.{ClientRequestContext}
use cadder.Ipc.ClientError.{IpcClientError}
use cadder.Ipc.Codec.{encode_json_frame}
use cadder.Ipc.Codec.Bounds.{Encodes, encode_json_frame-Encodes}
use cadder.Ipc.Framing.{request_operation_for_response, encode_envelope}
use cadder.Ipc.Framing.Delivery.{received, value_of, error_value, response_arrives}
use cadder.Ipc.Writing.{Round, write_frame}
use cadder.Ipc.Writing.Complete.{IsWritten, write_frame-IsWritten}
use cadder.Protocol.Errors.{ProtocolErrorResponse, rejected, stale_instance, with_request_id}
use cadder.Protocol.Identifiers.{parse_request_id}
use cadder.Protocol.Operations.{query_state_request, query_state_response, protocol_error_response}

abbrev frame : List ℕ
frame = 123 ∷ 125 ∷ 10 ∷ []

encode_json_frame-Encodes_example :
    Encodes (123 ∷ 125 ∷ []) (ok tt) (encode_json_frame ((123 ∷ []) ∷ (125 ∷ []) ∷ []) (ok tt))
encode_json_frame-Encodes_example = encode_json_frame-Encodes ((123 ∷ []) ∷ (125 ∷ []) ∷ []) (ok tt)

-- Each write takes two bytes, and the deadline passes before the flush.
abbrev by_two : ℕ → Round
by_two k = record { expired = false; answer = Awaited.finished (ok 2) }

write_frame-IsWritten_example :
    IsWritten frame (write_frame by_two true (Awaited.finished (ok tt)) frame)
write_frame-IsWritten_example = write_frame-IsWritten by_two true (Awaited.finished (ok tt)) frame

abbrev asked : ClientRequestContext
asked = record { operation = query_state_request; request_id = record { text = "request-1" } }

abbrev sent_error : ProtocolErrorResponse
unfolding rejected stale_instance
sent_error = rejected (some asked.request_id) stale_instance

abbrev five : ℕ
five = 5

response_arrives_example :
    (read_client_response
        (received (encode_envelope query_state_response (ok (value_of asked.request_id five))))
        asked
      ≡ ok five)
    × (read_client_response
          (received (encode_envelope protocol_error_response (ok (error_value sent_error five))))
          asked
        ≡ err (IpcClientError.daemon (with_request_id asked.request_id sent_error.error)))
unfolding parse_request_id request_operation_for_response sent_error
response_arrives_example =
    response_arrives query_state_response asked five sent_error refl refl refl
