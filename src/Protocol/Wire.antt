-- ===== src/Protocol/Wire.antt =====
-- crates/cadder-ipc/src/wire.rs: the envelopes of requests and responses. `serde_json` reads and
-- writes the fields; what it makes of a payload is an argument.
pub mod RoundTrip
use cadder.Base.{
  List, [], String, Bool, true, false, not, Option, none, some, Result, ok, err, ◌==◌, string_eq,
  option_eq, Eq, if◌then◌else◌,
}
use cadder.Protocol.Errors.{
  ProtocolError, with_request_id, payload_decode_failed, incompatible_payload_contract,
  decoder_contract_mismatch,
}
use cadder.Protocol.Identifiers.{RequestId}
use cadder.Protocol.Operations.{AuthorizedRequestEnvelope}
use cadder.Protocol.Version.{ProtocolVersion}

-- What is read of a payload: whether it is JSON, the value, the first member that the type does not
-- know, and whether nothing follows.
pub record PayloadReading (T : Type 0) : Type 0 where
  pub json : Result (Unit {0}) String
  pub value : Result T String
  pub first_ignored : Option String
  pub at_end : Bool

-- No payload has a discriminator, so that `incompatible_discriminator` is never there.
unfoldable pub decode_payload : {T : Type 0} → PayloadReading T → Result T ProtocolError
unfolding payload_decode_failed incompatible_payload_contract
decode_payload r = elim r.json [
  | err e ↦ err (payload_decode_failed e)
  | ok _ ↦ elim r.value [
    | err e ↦ elim r.first_ignored [
      | some path ↦ err (incompatible_payload_contract (some path))
      | none ↦ err (payload_decode_failed e)
    ]
    | ok value ↦
        if not r.at_end then err (incompatible_payload_contract none) else (elim r.first_ignored [
          | some path ↦ err (incompatible_payload_contract (some path))
          | none ↦ ok value
        ])
  ]
]

abbrev correlated : {T : Type 0} → RequestId → Result T ProtocolError → Result T ProtocolError
correlated id (ok value) = ok value
correlated id (err e) = err (with_request_id id e)

-- `AuthorizedRequestEnvelope::decode` by a payload type of an operation.
unfoldable pub decode :
    {T : Type 0} → String → PayloadReading T → AuthorizedRequestEnvelope → Result T ProtocolError
unfolding decode_payload decoder_contract_mismatch
decode operation reading a =
    if not (operation == a.definition.name)
    then err (
        with_request_id a.envelope.request_id
          (decoder_contract_mismatch a.definition.name operation))
    else correlated a.envelope.request_id (decode_payload reading)

pub data ResponseOutcome (T : Type 0) : Type 0 where
  success : T → ResponseOutcome T
  failure : ProtocolError → ResponseOutcome T

unfoldable pub into_result : {T : Type 0} → ResponseOutcome T → Result T ProtocolError
into_result (success result) = ok result
into_result (failure error) = err error

pub record ResponseEnvelope (T : Type 0) : Type 0 where
  pub protocol_version : ProtocolVersion
  pub operation : String
  pub request_id : RequestId
  pub outcome : ResponseOutcome T

unfoldable pub success_envelope :
    {T : Type 0} → ProtocolVersion → String → RequestId → T → ResponseEnvelope T
success_envelope version operation id result = record {
  protocol_version = version;
  operation = operation;
  request_id = id;
  outcome = success result;
}

unfoldable pub failure_envelope :
    {T : Type 0} → ProtocolVersion → String → RequestId → ProtocolError → ResponseEnvelope T
failure_envelope version operation id error = record {
  protocol_version = version;
  operation = operation;
  request_id = id;
  outcome = failure (with_request_id id error);
}

-- The members of a response object; a missing one is `none`. `additional` has the members of other
-- names with their JSON texts, which the reader ignores.
pub record WireResponse (T : Type 0) : Type 0 where
  pub protocol_version : ProtocolVersion
  pub operation : String
  pub request_id : RequestId
  pub result : Option T
  pub error : Option ProtocolError
  pub additional : List (String × String)

abbrev result_of : {T : Type 0} → ResponseOutcome T → Option T
result_of (success result) = some result
result_of (failure error) = none

abbrev failure_of : {T : Type 0} → ResponseOutcome T → Option ProtocolError
failure_of (success result) = none
failure_of (failure error) = some error

unfoldable pub serialize_response : {T : Type 0} → ResponseEnvelope T → WireResponse T
serialize_response e = record {
  protocol_version = e.protocol_version;
  operation = e.operation;
  request_id = e.request_id;
  result = result_of e.outcome;
  error = failure_of e.outcome;
  additional = [];
}

abbrev pub request_id_test : RequestId → RequestId → Bool
request_id_test a b = a.text == b.text

abbrev pub same_request : Option RequestId → RequestId → Bool
same_request none id = false
same_request (some a) id = request_id_test a id

outcome_of :
    {T : Type 0} → RequestId → Option T → Option ProtocolError → Result (ResponseOutcome T) String
outcome_of id (some result) none = ok (success result)
outcome_of id none (some error) =
    if not (same_request error.request_id id)
    then err "the response and protocol error request IDs must match"
    else ok (failure error)
outcome_of id none none = err "a response must contain `result` or `error`"
outcome_of id (some result) (some error) = err "a response cannot contain both `result` and `error`"

abbrev enveloped :
    {T : Type 0}
    → WireResponse T
    → Result (ResponseOutcome T) String
    → Result (ResponseEnvelope T) String
enveloped w (err e) = err e
enveloped w (ok outcome) = ok (record {
  protocol_version = w.protocol_version;
  operation = w.operation;
  request_id = w.request_id;
  outcome = outcome;
})

unfoldable pub deserialize_response :
    {T : Type 0} → WireResponse T → Result (ResponseEnvelope T) String
unfolding outcome_of
deserialize_response w = enveloped w (outcome_of w.request_id w.result w.error)
