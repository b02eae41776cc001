-- ===== src/Ipc/Dispatch.antt =====
-- `dispatch_authorized_request` of crates/cadder-daemon/src/ipc/dispatch.rs for a request without a
-- fence: the queries, and the shutdown of the daemon. What the payload decodes to, the clock and what a
-- write answers are arguments.
pub mod Once
pub mod Effects
use cadder.Base.{
  ℕ, String, Bool, true, false, Option, none, some, List, [], ◌∷◌, Result, ok, err, ◌==◌, string_eq,
  if◌then◌else◌,
}
use cadder.Daemon.{DaemonState}
use cadder.Daemon.Deadlines.{Daemon}
use cadder.Daemon.Queries.{query_logs}
use cadder.Daemon.Shutdown.{prepare_signal, request_shutdown}
use cadder.Daemon.Snapshots.{StorageFile, query_state}
use cadder.Ipc.Control.{ConnectionAction}
use cadder.Ipc.Supervision.{Reply, SupervisionError}
use cadder.Ipc.Supervision.Unary.{Handled}
use cadder.Protocol.Errors.{ProtocolError}
use cadder.Protocol.Logs.{QueryLogsPayload, QueryLogsResponse}
use cadder.Protocol.Messages.{BasicResponse}
use cadder.Protocol.Operations.{
  AuthorizedRequestEnvelope, query_state_request, query_logs_request, shutdown_daemon_request,
}
use cadder.Protocol.Snapshot.{QueryStateResponse}

pub data DispatchResponse : Type 0 where
  state : QueryStateResponse → DispatchResponse
  logs : QueryLogsResponse → DispatchResponse
  shutdown : BasicResponse → DispatchResponse

-- `decoded` is the payload, which only a query of the logs reads.
pub record Dispatching : Type 0 where
  pub decoded : Result QueryLogsPayload ProtocolError
  pub now : ℕ
  pub file : StorageFile
  pub log_fault : Option String
  pub requested_at : ℕ
  pub write : Reply DispatchResponse → Result (Unit {0}) String

-- `prepare_shutdown_at`.
unfoldable pub prepare_shutdown_at : {S : Type 0} → ℕ → DaemonState S → DaemonState S
unfolding prepare_signal
prepare_shutdown_at now d = record d { shutdown = prepare_signal now d.shutdown }

module _ (x : Dispatching) where
  abbrev write_result :
      ConnectionAction → Result (Unit {0}) String → Result ConnectionAction SupervisionError
  write_result action (ok _) = ok action
  write_result action (err e) = err (SupervisionError.write_failed e)

  abbrev send_response : Reply DispatchResponse → ConnectionAction → Handled DispatchResponse
  send_response reply action = record {
    replies = reply ∷ [];
    result = write_result action (x.write reply);
  }

  answer_state : String → Daemon → Daemon × Handled DispatchResponse
  unfolding query_state
  answer_state id d =
      let (d', response) = query_state x.file x.now d in
      (
        d',
        send_response (Reply.response (state (record response { request_id = id })))
            ConnectionAction.continue,
      )

  answer_logs : String → QueryLogsPayload → Daemon → Daemon × Handled DispatchResponse
  unfolding query_logs
  answer_logs id p d = (
    d,
    send_response (Reply.response (logs (record (query_logs x.log_fault p d) { request_id = id })))
        ConnectionAction.continue,
  )

  -- The signal is given before the response is written.
  answer_shutdown : String → Daemon → Daemon × Handled DispatchResponse
  unfolding prepare_shutdown_at request_shutdown
  answer_shutdown id d = (
    request_shutdown x.requested_at (prepare_shutdown_at x.now d),
    send_response
        (Reply.response (
          shutdown
            (record { request_id = id; accepted = true; message = "Daemon shutdown started." })))
        ConnectionAction.close,
  )

  -- The other operations of the registry are mutations, and want a fence.
  dispatch_decoded :
      AuthorizedRequestEnvelope
      → Result QueryLogsPayload ProtocolError
      → Daemon
      → Daemon × Handled DispatchResponse
  unfolding answer_state answer_logs answer_shutdown
  dispatch_decoded a (err e) d = (d, send_response (Reply.undecoded e) ConnectionAction.continue)
  dispatch_decoded a (ok p) d =
      let id = a.envelope.request_id.text in
      if a.definition.name == query_state_request
      then answer_state id d
      else if a.definition.name == query_logs_request
      then answer_logs id p d
      else if a.definition.name == shutdown_daemon_request
      then answer_shutdown id d
      else (d, record { replies = []; result = err SupervisionError.unfenced })

  unfoldable pub dispatch_authorized_request :
      AuthorizedRequestEnvelope → Daemon → Daemon × Handled DispatchResponse
  unfolding dispatch_decoded
  dispatch_authorized_request a d = dispatch_decoded a x.decoded d
