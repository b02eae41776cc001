-- ===== src/Examples/Peers.antt =====
-- A connection of the runtime's owner.
use cadder.Base.{◌≡◌, refl, false, some, [], ◌∷◌, ok, All, map}
use cadder.Ipc.Access.{IpcOsIdentity, IpcPrincipal, PrivilegeStatus}
use cadder.Ipc.Client.{Awaited, NextFrame}
use cadder.Ipc.Connection.{Turn, Arrival, serve_accepted_connection}
use cadder.Ipc.Connection.Admission.{IsAdmitted, serve-Admits}
use cadder.Ipc.Control.{ConnectionAction}
use cadder.Ipc.Handshake.{ServerHandshakeIdentity, FirstByte}
use cadder.Protocol.Handshake.{ClientHello}
use cadder.Protocol.Operations.{RawRequestEnvelope, AuthorizedRequestEnvelope, query_state_request}
use cadder.Protocol.Version.{current_protocol_version}

abbrev owner : IpcPrincipal
owner = record {
  identity = some (IpcOsIdentity.unix_uid 1000);
  privilege_status = PrivilegeStatus.elevated;
}

abbrev peer : IpcPrincipal
peer = record {
  identity = some (IpcOsIdentity.unix_uid 1000);
  privilege_status = PrivilegeStatus.normal_user;
}

abbrev server : ServerHandshakeIdentity
server = record { runtime_id = "runtime"; daemon_instance_id = "instance" }

abbrev hello : ClientHello
hello = record {
  request_id = record { text = "hello-1" };
  runtime_id = "runtime";
  protocol_version = current_protocol_version;
}

abbrev pub query : RawRequestEnvelope
query = record {
  protocol_version = current_protocol_version;
  operation = query_state_request;
  request_id = record { text = "request-1" };
  payload = "{}";
}

abbrev turn : Turn
turn = record {
  frame = some (ok (ok query));
  draining = false;
  write = ok tt;
  supervised = λ a. ok ConnectionAction.continue;
}

abbrev arrival : Arrival
arrival = record {
  cancelled = false;
  authentication = Awaited.finished (ok tt, ok peer);
  first = FirstByte.arrived;
  next = Awaited.finished (NextFrame.line (ok hello));
  hello_write = ok tt;
  turns = turn ∷ [];
}

serve-Admits_example :
    All
      (IsAdmitted owner server arrival)
      (serve_accepted_connection owner server arrival).dispatched
serve-Admits_example = serve-Admits owner server arrival

-- The query is dispatched.
one_query :
    map
      (λ (a : AuthorizedRequestEnvelope). a.envelope)
      (serve_accepted_connection owner server arrival).dispatched
    ≡ query ∷ []
unfolding serve_accepted_connection
one_query = refl
