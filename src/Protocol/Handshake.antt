-- ===== src/Protocol/Handshake.antt =====
-- crates/cadder-ipc/src/handshake.rs: the frames before the envelopes.
use cadder.Base.{String, Option, none, some, Result, ok, err}
use cadder.Protocol.Errors.{ProtocolError, with_request_id}
use cadder.Protocol.Identifiers.{RequestId}
use cadder.Protocol.Version.{ProtocolVersion}

abbrev pub client_hello_operation : String
client_hello_operation = "client-hello"

pub record ClientHello : Type 0 where
  pub request_id : RequestId
  pub runtime_id : String
  pub protocol_version : ProtocolVersion

pub record ServerHello : Type 0 where
  pub request_id : RequestId
  pub runtime_id : String
  pub daemon_instance_id : String
  pub protocol_version : ProtocolVersion

pub record HandshakeRejection : Type 0 where
  pub runtime_id : String
  pub daemon_instance_id : String
  pub error : ProtocolError

pub data ServerHandshakeFrame : Type 0 where
  accepted : ServerHello → ServerHandshakeFrame
  rejected : HandshakeRejection → ServerHandshakeFrame

-- `ServerHandshakeFrame::rejected`; `for_versioned_response` is `with_request_id`.
abbrev pub rejecting : RequestId → String → String → ProtocolError → ServerHandshakeFrame
rejecting request_id runtime_id daemon_instance_id error = ServerHandshakeFrame.rejected (record {
  runtime_id = runtime_id;
  daemon_instance_id = daemon_instance_id;
  error = with_request_id request_id error;
})

abbrev rejection_of : HandshakeRejection → Option RequestId → Result ServerHandshakeFrame String
rejection_of r none = err "a handshake rejection must contain a correlated request ID"
rejection_of r (some id) = ok (ServerHandshakeFrame.rejected r)

-- A frame from its members. Those of a rejection may be any.
unfoldable pub deserialize_frame : ServerHandshakeFrame → Result ServerHandshakeFrame String
deserialize_frame (ServerHandshakeFrame.accepted hello) = ok (ServerHandshakeFrame.accepted hello)
deserialize_frame (ServerHandshakeFrame.rejected r) = rejection_of r r.error.request_id
