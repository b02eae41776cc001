-- ===== src/Examples/Wire.antt =====
-- The wire protocol.
use cadder.Base.{◌≡◌, refl, ok, ◌∷◌, []}
use cadder.Protocol.Errors.{stale_instance}
use cadder.Protocol.Identifiers.{RequestId}
use cadder.Protocol.Version.{current_protocol_version}
use cadder.Protocol.Wire.{
  ResponseEnvelope, WireResponse, failure_envelope, serialize_response, deserialize_response,
}
use cadder.Protocol.Wire.RoundTrip.{deserialize_response_iff}

abbrev hello : RequestId
hello = record { text = "hello-1" }

-- What the daemon answers to a client that it does not know.
abbrev answer : ResponseEnvelope (Unit {0})
answer = failure_envelope current_protocol_version "client-hello" hello stale_instance

-- A later daemon adds a member.
abbrev extended : WireResponse (Unit {0})
extended = record (serialize_response answer) { additional = ("futureField", "true") ∷ [] }

deserialize_response_iff_example : deserialize_response extended ≡ ok answer
unfolding failure_envelope serialize_response
deserialize_response_iff_example = (deserialize_response_iff extended answer).1 (refl, refl)
