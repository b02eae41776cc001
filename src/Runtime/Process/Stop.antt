-- ===== src/Runtime/Process/Stop.antt =====
-- How the owned Caddy process is stopped: `stop_until`, `force_stop` and `stop` of
-- crates/cadder-daemon/src/runtime/process.rs. Which deadline has passed is an answer.
pub mod Laws
pub mod Confirmed
pub mod Forced
use cadder.Base.{String, Bool, true, false, Option, none, some, Result, ok, err, if◌then◌else◌}
use cadder.Protocol.State.{idle_runtime}
use cadder.Runtime.Process.World.{
  Answer, done, fails, fails_late, times_out, exits, OwnedRuntimeProcess, Process, Call, ◌>>=◌,
  ◌>>◌, pure, fail, call, Status, alive, exited, unreadable, status_of, Waited, joined, broken,
  elapsed, waited, completed, answer, answered, with_child, with_snapshot,
}

-- The child is gone, perhaps with an error on the way, or it is kept, since it may still run.
pub data ChildStop : Type 0 where
  gone : Option String → ChildStop
  kept : String → ChildStop

abbrev pub kill_error : Option String → Option String
kill_error none = some "real Caddy runtime did not stop within its deadline and was killed"
kill_error (some e) = some e

after_kill_wait : Option String → Waited → Process → Process × ChildStop
after_kill_wait e joined m = (with_child none m, gone (kill_error e))
after_kill_wait e (broken b) m = (m, kept b)
after_kill_wait e elapsed m =
    (m, kept "real Caddy runtime kill did not complete before the shutdown deadline")

after_start_kill : Option String → Result (Unit {0}) String → Process → Process × ChildStop
unfolding after_kill_wait
after_start_kill e (err b) m = (m, kept b)
after_start_kill e (ok _) m = after_kill_wait e (waited (answer m)) (answered m)

after_stop_wait : Option String → Waited → Process → Process × ChildStop
unfolding after_start_kill
after_stop_wait e joined m = (with_child none m, gone e)
after_stop_wait e (broken b) m = (m, kept b)
after_stop_wait e elapsed m = after_start_kill e (completed (answer m)) (answered m)

-- `request_graceful_stop_until` of runtime/process/io.rs: the helper `caddy stop` is spawned, waited
-- for, and killed and joined if it is late.
request_wait : Answer → Call (Unit {0})
request_wait done = pure tt
request_wait (exits status) = fail status
request_wait (fails e) = fail e
request_wait (fails_late e) = fail e
request_wait times_out = do call; call; fail "caddy stop timed out"

request_graceful_stop : Call (Unit {0})
unfolding request_wait
request_graceful_stop = call >>= λ _ m. request_wait (answer m) (answered m)

-- Its error does not end the stop.
abbrev request_error : Result (Unit {0}) String → Option String
request_error (ok _) = none
request_error (err e) = some e

after_verify : Result (Unit {0}) String → Process → Process × ChildStop
unfolding after_stop_wait request_graceful_stop
after_verify (err e) m = after_stop_wait (some e) (waited (answer m)) (answered m)
after_verify (ok _) m =
    let (asked, result) = request_graceful_stop m in
    after_stop_wait (request_error result) (waited (answer asked)) (answered asked)

stop_child : Status → Process → Process × ChildStop
unfolding after_verify
stop_child (exited status) m = (with_child none m, gone none)
stop_child (unreadable e) m = (m, kept e)
stop_child alive m = after_verify (completed (answer m)) (answered m)

pub stop_owned : Option OwnedRuntimeProcess → Process → Process × ChildStop
unfolding stop_child
stop_owned none m = (m, gone none)
stop_owned (some owned) m = stop_child (status_of (answer m)) (answered m)

-- `RuntimeStopOutcome`: the result, and whether nothing of the runtime runs any more.
pub record RuntimeStopOutcome : Type 0 where
  pub result : Result (Unit {0}) String
  pub quiescent : Bool

abbrev pub stop_result : Option String → Result (Unit {0}) String
stop_result none = ok tt
stop_result (some e) = err e

-- The log readers are joined last.
join_logs : Option String → Waited → Process → Process × RuntimeStopOutcome
join_logs e elapsed m = (
  m,
  record {
    result = err "real Caddy runtime log readers did not join before the shutdown deadline";
    quiescent = false;
  },
)
join_logs e joined m = (m, record { result = stop_result e; quiescent = true })
join_logs e (broken b) m = (m, record { result = stop_result e; quiescent = true })

after_child : Process × ChildStop → Process × RuntimeStopOutcome
unfolding join_logs
after_child (m, kept e) = (m, record { result = err e; quiescent = false })
after_child (m, gone e) =
    let idle = with_snapshot idle_runtime m in join_logs e (waited (answer idle)) (answered idle)

after_lock : Waited → Process → Process × RuntimeStopOutcome
unfolding stop_owned after_child
after_lock elapsed m = (
  m,
  record {
    result = err "real Caddy runtime stop could not acquire child ownership before its deadline";
    quiescent = false;
  },
)
after_lock joined m = after_child (stop_owned m.runtime.child m)
after_lock (broken b) m = after_child (stop_owned m.runtime.child m)

unfoldable pub stop_until : Process → Process × RuntimeStopOutcome
unfolding after_lock
stop_until m = after_lock (waited (answer m)) (answered m)

-- What is left to do once the child is known to be gone.
force_finish : Process → Process × Result (Unit {0}) String
force_finish m =
    let idle = with_snapshot idle_runtime (with_child none m) in
    (answered idle, completed (answer idle))

-- `terminate_and_join` of crates/cadder-daemon/src/process_tree.rs: the kill, and the bounded wait.
unfoldable pub terminate_and_join : Call (Unit {0})
terminate_and_join = do call; call

force_terminated : Result (Unit {0}) String → Process → Process × Result (Unit {0}) String
unfolding force_finish
force_terminated (ok _) m = force_finish m
force_terminated (err e) m = (m, err e)

force_child : Status → Process → Process × Result (Unit {0}) String
unfolding force_terminated terminate_and_join
force_child (exited status) m = force_finish m
force_child (unreadable e) m = (m, err e)
force_child alive m = let (ended, result) = terminate_and_join m in force_terminated result ended

force_owned : Option OwnedRuntimeProcess → Process → Process × Result (Unit {0}) String
unfolding force_child
force_owned none m = force_finish m
force_owned (some owned) m = force_child (status_of (answer m)) (answered m)

unfoldable pub force_stop : Call (Unit {0})
unfolding force_owned
force_stop m = force_owned m.runtime.child m

-- A stop that has not come to rest is forced, and then has the error of the first attempt.
after_attempt : Process × RuntimeStopOutcome → Process × Result (Unit {0}) String
unfolding force_stop
after_attempt (m, o) =
    let (forced, result) = force_stop m in
    if o.quiescent
    then (m, o.result)
    else (elim result [ ok _ ↦ (forced, o.result) | err e ↦ (forced, err e) ])

unfoldable pub stop : Call (Unit {0})
unfolding stop_until after_attempt
stop m = after_attempt (stop_until m)
