-- ===== src/Ipc/Dispatch/Effects.antt =====
-- What a dispatched request does to the daemon, and what it answers.
use cadder.Base.{
  ◌≡◌, ◌≢◌, ◌⊎◌, Bool, true, false, ◌&&◌, ◌||◌, Option, none, some, Result, ok, err, ◌==◌,
  string_eq, All, length,
}
use cadder.Base.Dict.{values}
use cadder.Daemon.Deadlines.{Daemon}
use cadder.Daemon.Snapshots.{snapshot}
use cadder.Ipc.Control.{ConnectionAction}
use cadder.Ipc.Dispatch.{DispatchResponse, Dispatching}
use cadder.Ipc.Supervision.{Reply, SupervisionError}
use cadder.Ipc.Supervision.Unary.{Handled}
use cadder.Protocol.Logs.{QueryLogsPayload}
use cadder.Protocol.Errors.{ProtocolError}
use cadder.Protocol.Operations.{
  AuthorizedRequestEnvelope, query_state_request, query_logs_request, shutdown_daemon_request,
}
use cadder.Protocol.Snapshot.{GuiStateSnapshot}

-- A snapshot of the daemon's registrations and of the configuration that it serves.
abbrev pub Shows : Daemon → Option GuiStateSnapshot → Type 0
Shows d none = ⊥
Shows d (some s) = (s.registrations ≡ values d.registrations) × (s.config ≡ d.coordinator.current)

-- The answer names the request, and is of its operation; or it is the error of its decoding.
abbrev pub Answers :
    Result QueryLogsPayload ProtocolError
    → AuthorizedRequestEnvelope
    → Daemon
    → Reply DispatchResponse
    → Type 0
Answers decoded a d (Reply.response (DispatchResponse.state r)) =
    (a.definition.name ≡ query_state_request)
    × (r.request_id ≡ a.envelope.request_id.text)
    × Shows d r.snapshot
Answers decoded a d (Reply.response (DispatchResponse.logs r)) =
    (a.definition.name ≡ query_logs_request) × (r.request_id ≡ a.envelope.request_id.text)
Answers decoded a d (Reply.response (DispatchResponse.shutdown r)) =
    (a.definition.name ≡ shutdown_daemon_request) × (r.request_id ≡ a.envelope.request_id.text)
Answers decoded a d (Reply.undecoded e) = decoded ≡ err e
Answers decoded a d reply = ⊥

abbrev pub decodes : {A : Type 0} → Result A ProtocolError → Bool
decodes (ok p) = true
decodes (err e) = false

-- The request is a shutdown that could be read.
abbrev pub asks_shutdown : Dispatching → AuthorizedRequestEnvelope → Bool
asks_shutdown x a = decodes x.decoded && a.definition.name == shutdown_daemon_request

-- What the dispatch of a request without a fence leaves. `asked` says whether it is a shutdown.
pub record IsDispatched (decoded : Result QueryLogsPayload ProtocolError)
    (a : AuthorizedRequestEnvelope) (asked : Bool) (d d' : Daemon) (h : Handled DispatchResponse)
    : Type 0 where
  pub registrations : d'.registrations ≡ d.registrations
  pub coordinator : d'.coordinator ≡ d.coordinator
  pub database : d'.database ≡ d.database
  pub lifecycle : d'.lifecycle ≡ d.lifecycle
  pub requested : d'.shutdown.requested ≡ (d.shutdown.requested || asked)
  pub answered : All (Answers decoded a d) h.replies
  pub said : (h.result ≡ err SupervisionError.unfenced) ⊎ (length h.replies ≡ 1)
  pub closing : (h.result ≢ ok ConnectionAction.close) ⊎ (asked ≡ true)

module _ (x : Dispatching) (a : AuthorizedRequestEnvelope) (d : Daemon)
    (r : Result QueryLogsPayload ProtocolError) where
  abbrev IsDone : Bool → Daemon × Handled DispatchResponse → Type 0
  IsDone asked (d', h) = IsDispatched r a asked d d' h
