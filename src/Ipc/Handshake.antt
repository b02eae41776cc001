-- ===== src/Ipc/Handshake.antt =====
-- crates/cadder-daemon/src/ipc/handshake.rs: a client and the daemon agree on a session before any
-- operation is sent. Each call of the connection takes its answer.
pub mod ClientEnd
pub mod Agreement
use cadder.Base.{
  String, Bool, true, false, not, Option, none, some, Result, ok, err, ◌==◌, string_eq, option_eq,
  ◌>>=◌, ◌>>◌, if◌then◌else◌,
}
use cadder.Ipc.Client.{Awaited, finished, late, NextFrame, map_err}
use cadder.Ipc.ClientError.{
  LocalIpcErrorCode, LocalIpcErrorKind, IpcClientPhase, LocalIpcError, IpcClientError,
}
use cadder.Protocol.Errors.{ProtocolError, stale_instance, incompatible_protocol_version_pair}
use cadder.Protocol.Handshake.{
  client_hello_operation, ClientHello, ServerHello, HandshakeRejection, ServerHandshakeFrame,
  rejecting,
}
use cadder.Protocol.Identifiers.{RequestId}
use cadder.Protocol.Version.{ProtocolVersion, current_protocol_version, version_eq}
use cadder.Protocol.Wire.{request_id_test, same_request}

pub record ServerHandshakeIdentity : Type 0 where
  pub runtime_id : String
  pub daemon_instance_id : String

pub record NegotiatedSession : Type 0 where
  pub version : ProtocolVersion

-- The read of the first byte: it came, the peer had closed, the read failed, or it was late.
pub data FirstByte : Type 0 where
  arrived closed timed_out : FirstByte
  failed : String → FirstByte

-- The rest of the frame, of which the end and the deadline are alike.
abbrev rest_of_frame : {A : Type 0} → Awaited (NextFrame A) → Result (Option A) String
rest_of_frame (Awaited.finished (NextFrame.line l)) = ok (some l)
rest_of_frame (Awaited.finished (NextFrame.io e)) = err e
rest_of_frame (Awaited.finished (NextFrame.codec e)) = err e
rest_of_frame (Awaited.finished NextFrame.closed) = ok none
rest_of_frame Awaited.late = ok none

unfoldable pub read_first_frame :
    {A : Type 0} → FirstByte → Awaited (NextFrame A) → Result (Option A) String
read_first_frame FirstByte.arrived next = rest_of_frame next
read_first_frame FirstByte.closed next = ok none
read_first_frame FirstByte.timed_out next = ok none
read_first_frame (FirstByte.failed e) next = err e

-- The daemon's answer, and the session that it then has.
unfoldable pub answer_hello :
    ServerHandshakeIdentity → ClientHello → ServerHandshakeFrame × Option NegotiatedSession
unfolding stale_instance incompatible_protocol_version_pair
answer_hello identity hello =
    if not (hello.runtime_id == identity.runtime_id)
    then (
      rejecting hello.request_id identity.runtime_id identity.daemon_instance_id stale_instance,
      none,
    )
    else if not (hello.protocol_version == current_protocol_version)
    then (
      rejecting hello.request_id identity.runtime_id identity.daemon_instance_id
          (incompatible_protocol_version_pair hello.protocol_version current_protocol_version),
      none,
    )
    else (
      ServerHandshakeFrame.accepted (record {
        request_id = hello.request_id;
        runtime_id = identity.runtime_id;
        daemon_instance_id = identity.daemon_instance_id;
        protocol_version = current_protocol_version;
      }),
      some (record { version = current_protocol_version }),
    )

abbrev after_write : {A : Type 0} → A → Result (Unit {0}) String → Result A String
after_write a (ok _) = ok a
after_write a (err e) = err e

abbrev answered :
    ServerHandshakeIdentity
    → Result (Unit {0}) String
    → Option (Result ClientHello String)
    → Option ServerHandshakeFrame × Result (Option NegotiatedSession) String
unfolding answer_hello
answered identity written none = (none, ok none)
answered identity written (some (err e)) = (none, err e)
answered identity written (some (ok hello)) =
    let (frame, session) = answer_hello identity hello in (some frame, after_write session written)

abbrev accepted_by :
    ServerHandshakeIdentity
    → Result (Unit {0}) String
    → Result (Option (Result ClientHello String)) String
    → Option ServerHandshakeFrame × Result (Option NegotiatedSession) String
accepted_by identity written (err e) = (none, err e)
accepted_by identity written (ok read) = answered identity written read

-- The frame that is written, if one is, and the session.
unfoldable pub accept_client_handshake :
    ServerHandshakeIdentity
    → FirstByte
    → Awaited (NextFrame (Result ClientHello String))
    → Result (Unit {0}) String
    → Option ServerHandshakeFrame × Result (Option NegotiatedSession) String
unfolding read_first_frame answered
accept_client_handshake identity first next written =
    accepted_by identity written (read_first_frame first next)
