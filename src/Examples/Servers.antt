-- ===== src/Examples/Servers.antt =====
-- The server, from its first connection to the end of its shutdown.
use cadder.Base.{◌+◌, ◌≤◌, ◌≡◌, refl, ◌↔◌, none, List, [], ◌∷◌, ok, max, true, false}
use cadder.Daemon.Deadlines.{Daemon}
use cadder.Daemon.{new_state}
use cadder.Examples.Processes.{with_answers, lines_env}
use cadder.Ipc.Server.{default_limits, Closure, ServerEnd, timeline, handler_deadline, shut_down}
use cadder.Ipc.Server.Accepting.{
  ServerEvent, shutdown_requested, connected, task_ended, joined, listening, accept_connection,
  accept_loop, run_until,
}
use cadder.Ipc.Server.Accepting.Permits.{EndsAsTold, accept_loop_bounds, run_until-EndsAsTold}
use cadder.Ipc.Server.Bounds.{shut_down-le}
use cadder.Examples.Peers.{query}
use cadder.Ipc.Control.{ConnectionAction}
use cadder.Ipc.Dispatch.{DispatchResponse, Dispatching, dispatch_authorized_request}
use cadder.Protocol.Operations.{shutdown_daemon_request}
use cadder.Ipc.Dispatch.Once.{supervise_dispatched-once}
use cadder.Ipc.Supervision.Replies.{answers}
use cadder.Ipc.Supervision.Unary.{Unary, pending, handler, timeout, supervise_handler}
use cadder.Protocol.Logs.{runtime_control_stream}
use cadder.Protocol.Operations.{
  OperationAccess, OperationDeadlineClass, AuthorizedRequestEnvelope, query_state_request,
}
use cadder.LogStore.{default_store}
use cadder.Runtime.Process.World.{Answer, done, times_out}

abbrev events : List ServerEvent
events = connected ∷ connected ∷ task_ended ∷ connected ∷ joined none ∷ shutdown_requested ∷ []

-- The daemon owns a Caddy process.
abbrev daemon : List Answer → Daemon
daemon answers = new_state (with_answers answers).runtime none default_store

-- The handlers are late, and so is all else.
abbrev slow : Closure
slow = record {
  drain_work = 20000;
  drained = ok tt;
  handling = λ d. d;
  abort_work = 20000;
  aborted = ok tt;
  aborting = λ d. d;
  log_work = 5;
  log = lines_env;
  preparing = record { operation_work = 1; coordinator_work = 1; stop_work = 10000 };
  force_work = 9000;
  interrupted = λ d. d;
  close_work = 1;
  closed = ok tt;
}

abbrev swift : Closure
swift = record slow { drain_work = 10 }

-- Caddy stops when it is asked to.
abbrev served : ServerEnd
served = shut_down swift default_limits none 100 (daemon [])

ends_well : served.result ≡ ok tt
unfolding shut_down new_state
ends_well = refl

run_until-EndsAsTold_example : EndsAsTold events served.state served.result
unfolding run_until
run_until-EndsAsTold_example =
    run_until-EndsAsTold default_limits events swift 100 (daemon []) served refl

-- Caddy has to be stopped by force.
abbrev stuck : Daemon
stuck = daemon (done ∷ done ∷ done ∷ done ∷ done ∷ times_out ∷ done ∷ times_out ∷ [])

forced_late : (shut_down slow default_limits none 100 stuck).ended_at ≡ 29107
unfolding shut_down new_state
forced_late = refl

shut_down-le_example :
    (shut_down slow default_limits none 100 stuck).ended_at
    ≤ max 100 (handler_deadline (timeline default_limits 100 stuck))
      + 10000
      + 10000
      + max 10000 5000
      + 5
shut_down-le_example = shut_down-le slow default_limits none 100 stuck

accept_loop_bounds_example :
    let s = (accept_loop events (listening 1)).0 in
    (s.running + s.permits ≡ 1)
    × (s.accepted ≡ s.running + s.ended + s.done)
    × (((accept_connection s).turned_away ≡ s.turned_away + 1) ↔ (s.running ≡ 1))
accept_loop_bounds_example = accept_loop_bounds 1 events

one_turned_away : (accept_loop events (listening 1)).0.turned_away ≡ 1
unfolding accept_loop
one_turned_away = refl

-- A query of the state, after which the client sends more.
abbrev query_authorized : AuthorizedRequestEnvelope
query_authorized = record {
  definition = record {
    name = query_state_request;
    access = OperationAccess.read_only;
    deadline = OperationDeadlineClass.ordinary;
    timeout_retryable = true;
  };
  envelope = query;
}

abbrev state_query : Dispatching
state_query = record {
  decoded = ok (record { stream = runtime_control_stream; limit = none });
  now = 100;
  file = record { path = "cadder.db"; diagnostics = [] };
  log_fault = none;
  requested_at = 101;
  write = λ reply. ok tt;
}

abbrev unary : Unary DispatchResponse
unary = record {
  first = pending (handler (dispatch_authorized_request state_query query_authorized stuck).1);
  next = timeout [];
  read_more = true;
  write = λ reply. ok tt;
}

supervise_dispatched-once_example :
    let (f, said) = supervise_handler unary none in
    (f ≡ none)
    × (answers said.replies ≤ 1)
    × ((b : ConnectionAction) → said.action ≡ ok b → answers said.replies ≡ 1)
supervise_dispatched-once_example =
    supervise_dispatched-once state_query query_authorized stuck unary refl refl

abbrev shutdown_authorized : AuthorizedRequestEnvelope
shutdown_authorized = record query_authorized {
  definition = record {
    name = shutdown_daemon_request;
    access = OperationAccess.mutation;
    deadline = OperationDeadlineClass.shutdown;
    timeout_retryable = false;
  };
}
