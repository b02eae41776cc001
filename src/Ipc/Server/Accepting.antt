-- ===== src/Ipc/Server/Accepting.antt =====
-- The loop of `DaemonServer::run_until` in crates/cadder-daemon/src/ipc.rs, which accepts connections
-- up to the limit and joins their tasks, until it is told to end or fails; and the server as a whole.
-- What happens is a list of events: the source selects among them in no order of its own.
pub mod Permits
use cadder.Base.{
  ℕ, ◌+◌, ◌-◌, String, Bool, true, false, Option, none, some, List, [], ◌∷◌, ◌==◌, nat_eq,
  if◌then◌else◌,
}
use cadder.Daemon.Deadlines.{Daemon}
use cadder.Ipc.Server.{IpcLimits, Closure, ServerEnd, shut_down}

pub data ShutdownOrigin : Type 0 where
  ipc_request external_signal server_failure : ShutdownOrigin

-- `told` has the value of the watched flag, or none if its sender is gone; `joined` the error of a
-- connection's task, if it has one. A task ends before it is joined.
pub data ServerEvent : Type 0 where
  shutdown_requested : ServerEvent
  told : Option Bool → ServerEvent
  mutation_panicked : ServerEvent
  connected : ServerEvent
  task_ended : ServerEvent
  joined : Option String → ServerEvent
  accept_interrupted : ServerEvent
  accept_failed : String → ServerEvent

-- The permits that are left, the tasks that run and hold one, those that have ended and are to be
-- joined, and how many connections were accepted, turned away and joined so far.
pub record Accepting : Type 0 where
  pub permits : ℕ
  pub running : ℕ
  pub ended : ℕ
  pub accepted : ℕ
  pub turned_away : ℕ
  pub done : ℕ

abbrev pub listening : ℕ → Accepting
listening max_connections = record {
  permits = max_connections;
  running = 0;
  ended = 0;
  accepted = 0;
  turned_away = 0;
  done = 0;
}

abbrev pub Left : Type 0
Left = Option (ShutdownOrigin × Option String)

-- `try_acquire_owned`: without a permit the connection is dropped.
abbrev pub accept_connection : Accepting → Accepting
accept_connection s =
    if s.permits == 0
    then record s { turned_away = s.turned_away + 1 }
    else record s { permits = s.permits - 1; running = s.running + 1; accepted = s.accepted + 1 }

-- A task that ends drops its permit.
abbrev end_task : Accepting → Accepting
end_task s =
    if s.running == 0
    then s
    else record s { permits = s.permits + 1; running = s.running - 1; ended = s.ended + 1 }

abbrev join_task : Accepting → Accepting
join_task s = if s.ended == 0 then s else record s { ended = s.ended - 1; done = s.done + 1 }

abbrev join_failure : Option String → Left
join_failure none = none
join_failure (some e) = some (ShutdownOrigin.server_failure, some e)

accept_step : ServerEvent → Accepting → Accepting × Left
accept_step shutdown_requested s = (s, some (ShutdownOrigin.ipc_request, none))
accept_step (told (some false)) s = (s, none)
accept_step (told (some true)) s = (s, some (ShutdownOrigin.external_signal, none))
accept_step (told none) s = (s, some (ShutdownOrigin.external_signal, none))
accept_step mutation_panicked s =
    (s, some (ShutdownOrigin.server_failure, some "owned mutation task panicked"))
accept_step connected s = (accept_connection s, none)
accept_step task_ended s = (end_task s, none)
accept_step (joined e) s = if s.ended == 0 then (s, none) else (join_task s, join_failure e)
accept_step accept_interrupted s = (s, none)
accept_step (accept_failed e) s = (s, some (ShutdownOrigin.server_failure, some e))

abbrev left_or : Left → Accepting → Accepting × Left → Accepting × Left
left_or none s rest = rest
left_or (some l) s rest = (s, some l)

-- Up to the event that leaves the loop, if one does.
unfoldable pub accept_loop : List ServerEvent → Accepting → Accepting × Left
unfolding accept_step
accept_loop [] s = (s, none)
accept_loop (e ∷ es) s = let (s', left) = accept_step e s in left_or left s' (accept_loop es s')

abbrev closing : IpcLimits → Closure → ℕ → Daemon → Left → Option ServerEnd
unfolding shut_down
closing limits c now d none = none
closing limits c now d (some (origin, failure)) = some (shut_down c limits failure now d)

-- The server, which has not ended if its loop was not left.
unfoldable pub run_until : IpcLimits → List ServerEvent → Closure → ℕ → Daemon → Option ServerEnd
unfolding accept_loop closing
run_until limits es c now d =
    closing limits c now d (accept_loop es (listening limits.max_connections)).1
