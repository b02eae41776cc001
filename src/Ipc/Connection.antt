-- ===== src/Ipc/Connection.antt =====
-- `serve_accepted_connection` and `handle_connection_loop` of crates/cadder-daemon/src/ipc/connection.rs:
-- a peer is authenticated, shakes hands, and sends requests, of which those that are authorized are
-- dispatched. What the supervision of a request answers is an argument. The list of turns ends
-- where the client closes the connection, or it is cancelled.
pub mod Admission
use Prim.Native.String as Str
use cadder.Base.{
  String, Bool, true, false, not, Option, none, some, List, [], ◌∷◌, Result, ok, err, if◌then◌else◌,
}
use cadder.Ipc.Access.{IpcPrincipal, authenticate_peer, authorize_or_reject}
use cadder.Ipc.Client.{Awaited, NextFrame}
use cadder.Ipc.Control.{ConnectionAction, continue, close, shutting_down_error}
use cadder.Ipc.Handshake.{
  ServerHandshakeIdentity, NegotiatedSession, FirstByte, accept_client_handshake,
}
use cadder.Protocol.ErrorKind.{ProtocolErrorKind, default_code}
use cadder.Protocol.Errors.{ProtocolError, new_error, known, ProtocolErrorResponse, rejected}
use cadder.Protocol.Handshake.{ClientHello, ServerHandshakeFrame}
use cadder.Protocol.Operations.{RawRequestEnvelope, AuthorizedRequestEnvelope, authorize_envelope}

pub data PeerAuthenticationError : Type 0 where
  preface identity : String → PeerAuthenticationError
  principal_mismatch : PeerAuthenticationError

abbrev reason_code : PeerAuthenticationError → String
reason_code (PeerAuthenticationError.preface e) = "authentication-preface-rejected"
reason_code (PeerAuthenticationError.identity e) = "peer-identity-unavailable"
reason_code PeerAuthenticationError.principal_mismatch = "principal-outside-runtime-owner"

abbrev matched : IpcPrincipal → IpcPrincipal → Result IpcPrincipal PeerAuthenticationError
unfolding authenticate_peer
matched owner peer =
    if not (authenticate_peer owner peer).allowed
    then err PeerAuthenticationError.principal_mismatch
    else ok peer

-- The peer, by the answers to its preface and of the resolver.
unfoldable pub authenticate_accepted_connection :
    IpcPrincipal
    → Result (Unit {0}) String
    → Result IpcPrincipal String
    → Result IpcPrincipal PeerAuthenticationError
unfolding matched
authenticate_accepted_connection owner (err e) resolved = err (PeerAuthenticationError.preface e)
authenticate_accepted_connection owner (ok _) (err e) = err (PeerAuthenticationError.identity e)
authenticate_accepted_connection owner (ok _) (ok peer) = matched owner peer

unfoldable pub peer_denial_line : PeerAuthenticationError → String
peer_denial_line e =
    Str.◌++◌
      "Cadder rejected a local connection before any request ran; runtime state is unchanged. Use the runtime owner account or inspect security diagnostics. Reason: "
      (reason_code e)

unfoldable pub invalid_request_frame_error : ProtocolError
unfolding new_error default_code
invalid_request_frame_error =
    new_error ProtocolErrorKind.frame (known (default_code ProtocolErrorKind.frame))
      "Cadder rejected an invalid or oversized local IPC request frame."
      (some "Send one UTF-8 JSON object terminated by LF and keep the frame at or below 1 MiB.")
      false

-- One turn of the loop: the frame read, as an envelope if it is one, or none at its end; whether the
-- daemon drains; what the write of a reply answers, and the supervision of a request.
pub record Turn : Type 0 where
  pub frame : Option (Result (Result RawRequestEnvelope String) String)
  pub draining : Bool
  pub write : Result (Unit {0}) String
  pub supervised : AuthorizedRequestEnvelope → Result ConnectionAction String

-- What a connection does: the requests that it dispatches, its log lines, the errors that it sends by
-- itself, and how it ends.
pub record Served : Type 0 where
  pub dispatched : List AuthorizedRequestEnvelope
  pub logged : List String
  pub replies : List ProtocolErrorResponse
  pub ended : Result (Unit {0}) String

abbrev ending : Result (Unit {0}) String → Served
ending r = record { dispatched = []; logged = []; replies = []; ended = r }

abbrev replying : ProtocolErrorResponse → Result (Unit {0}) String → Served → Served
replying reply (ok _) rest = record rest { replies = reply ∷ rest.replies }
replying reply (err e) rest = record (ending (err e)) { replies = reply ∷ [] }

abbrev dispatching : AuthorizedRequestEnvelope → Result ConnectionAction String → Served → Served
dispatching a (err e) rest = record (ending (err e)) { dispatched = a ∷ [] }
dispatching a (ok close) rest = record (ending (ok tt)) { dispatched = a ∷ [] }
dispatching a (ok continue) rest = record rest { dispatched = a ∷ rest.dispatched }

abbrev authorized_turn :
    Turn → RawRequestEnvelope → Served → Result AuthorizedRequestEnvelope ProtocolError → Served
unfolding rejected
authorized_turn t envelope rest (err e) =
    replying (rejected (some envelope.request_id) e) t.write rest
authorized_turn t envelope rest (ok a) = dispatching a (t.supervised a) rest

-- The log line of a denial is written before its reply.
abbrev admitted_turn :
    Turn → RawRequestEnvelope → Served → Option (String × ProtocolErrorResponse) → Served
unfolding authorized_turn authorize_envelope
admitted_turn t envelope rest (some (line, denial)) =
    let answered = replying denial t.write rest in
    record answered { logged = line ∷ answered.logged }
admitted_turn t envelope rest none = authorized_turn t envelope rest (authorize_envelope envelope)

handle_envelope : IpcPrincipal → IpcPrincipal → Turn → RawRequestEnvelope → Served → Served
unfolding admitted_turn authorize_or_reject shutting_down_error
handle_envelope owner peer t envelope rest =
    if t.draining
    then replying (shutting_down_error (some envelope.request_id)) t.write (ending (ok tt))
    else admitted_turn t envelope rest (authorize_or_reject owner peer envelope)

abbrev handle_frame :
    IpcPrincipal
    → IpcPrincipal
    → Turn
    → Option (Result (Result RawRequestEnvelope String) String)
    → Served
    → Served
unfolding handle_envelope rejected invalid_request_frame_error
handle_frame owner peer t none rest = ending (ok tt)
handle_frame owner peer t (some (err e)) rest = record (ending (err e)) {
  replies = rejected none invalid_request_frame_error ∷ [];
}
handle_frame owner peer t (some (ok (err e))) rest = ending (err e)
handle_frame owner peer t (some (ok (ok envelope))) rest =
    handle_envelope owner peer t envelope rest

handle_connection_turns : IpcPrincipal → IpcPrincipal → List Turn → Served
unfolding handle_frame
handle_connection_turns owner peer [] = ending (ok tt)
handle_connection_turns owner peer (t ∷ ts) =
    handle_frame owner peer t t.frame (handle_connection_turns owner peer ts)

-- What a connection meets from its acceptance on.
pub record Arrival : Type 0 where
  pub cancelled : Bool
  pub authentication : Awaited (Result (Unit {0}) String × Result IpcPrincipal String)
  pub first : FirstByte
  pub next : Awaited (NextFrame (Result ClientHello String))
  pub hello_write : Result (Unit {0}) String
  pub turns : List Turn

abbrev negotiated :
    IpcPrincipal → IpcPrincipal → List Turn → Result (Option NegotiatedSession) String → Served
unfolding handle_connection_turns
negotiated owner peer turns (err e) = ending (err e)
negotiated owner peer turns (ok none) = ending (ok tt)
negotiated owner peer turns (ok (some session)) = handle_connection_turns owner peer turns

unfoldable pub handle_connection_loop :
    IpcPrincipal → ServerHandshakeIdentity → Arrival → IpcPrincipal → Served
unfolding negotiated accept_client_handshake
handle_connection_loop owner server a peer =
    negotiated owner peer a.turns (accept_client_handshake server a.first a.next a.hello_write).1

abbrev authenticated :
    IpcPrincipal
    → ServerHandshakeIdentity
    → Arrival
    → Result IpcPrincipal PeerAuthenticationError
    → Served
unfolding handle_connection_loop peer_denial_line
authenticated owner server a (ok peer) = handle_connection_loop owner server a peer
authenticated owner server a (err e) = record (ending (ok tt)) { logged = peer_denial_line e ∷ [] }

abbrev within_time :
    IpcPrincipal
    → ServerHandshakeIdentity
    → Arrival
    → Awaited (Result (Unit {0}) String × Result IpcPrincipal String)
    → Served
unfolding authenticated authenticate_accepted_connection
within_time owner server a Awaited.late = ending (ok tt)
within_time owner server a (Awaited.finished (sent, resolved)) =
    authenticated owner server a (authenticate_accepted_connection owner sent resolved)

unfoldable pub serve_accepted_connection : IpcPrincipal → ServerHandshakeIdentity → Arrival → Served
unfolding within_time
serve_accepted_connection owner server a =
    if a.cancelled then ending (ok tt) else within_time owner server a a.authentication
