-- ===== src/Examples/Sessions.antt =====
-- Handshakes, and requests over a session.
use cadder.Base.{refl, true, [], ok}
use cadder.Ipc.Client.{PreparedClientRequest, Awaited, Exchange, CadderSession, request_prepared}
use cadder.Ipc.Client.Outcomes.{Settled, request_prepared-Settled}
use cadder.Ipc.Handshake.{ServerHandshakeIdentity}
use cadder.Ipc.Handshake.Agreement.{Agree, daemon_side, client_side, handshake_agrees}
use cadder.Protocol.Identifiers.{RequestId}
use cadder.Protocol.Operations.{set_domain_enabled_request}
use cadder.Protocol.Version.{current_protocol_version}

abbrev hello_id : RequestId
hello_id = record { text = "hello-1" }

abbrev identity : ServerHandshakeIdentity
identity = record { runtime_id = "runtime"; daemon_instance_id = "instance" }

handshake_agrees_example :
    Agree hello_id "another" "runtime"
      (daemon_side hello_id "another" identity).1
      (client_side hello_id "another" (daemon_side hello_id "another" identity).0)
handshake_agrees_example = handshake_agrees hello_id "another" identity

abbrev switching : PreparedClientRequest
switching = record {
  context = record {
    operation = set_domain_enabled_request;
    request_id = record { text = "request-1" };
  };
  frame = [];
}

abbrev session : CadderSession
session = record { reader = true; writer = true; version = current_protocol_version; usable = true }

-- The daemon does not answer in time.
abbrev unanswered : Exchange (Unit {0})
unanswered = record { write = Awaited.finished (ok tt, ok tt); read = Awaited.late }

request_prepared-Settled_example :
    Settled unanswered switching session (request_prepared unanswered switching session)
request_prepared-Settled_example = request_prepared-Settled unanswered switching session refl
