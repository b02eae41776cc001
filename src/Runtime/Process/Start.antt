-- ===== src/Runtime/Process/Start.antt =====
-- How Caddy is started, reloaded and inspected: `start`, `reload`, `runtime_is_running` and `inspect`
-- of crates/cadder-daemon/src/runtime/process.rs, and `submit_reload` of process/io.rs. The readers
-- of the child's output are tasks of their own, and not modelled.
pub mod Laws
use cadder.Base.{ℕ, String, Bool, true, false, Option, none, some, List, [], ◌∷◌, Result, ok, err}
use cadder.Protocol.Logs.{LogSeverity}
use cadder.Protocol.State.{RuntimeStatus, RuntimeState, idle_runtime}
use cadder.Runtime.{LogEnv}
use cadder.Runtime.Process.Stop.{terminate_and_join}
use cadder.Runtime.Process.World.{
  Answer, done, fails, fails_late, times_out, exits, OwnedRuntimeProcess, Process, Call, ◌>>=◌,
  ◌>>◌, pure, fail, head_id, tail, Status, alive, exited, unreadable, status_of, Waited, joined,
  broken, elapsed, waited, answer, answered, with_child, with_snapshot, call, control_log,
}
use Prim.Native.String as Str

abbrev pub caddy_admin_endpoint : String
caddy_admin_endpoint = "localhost:2019"

abbrev runtime_running_state : Option String → Option ℕ → Option String → RuntimeState
runtime_running_state binary_path process_id version = record {
  status = RuntimeStatus.running;
  binary_path = binary_path;
  version = version;
  process_id = process_id;
  admin_endpoint = some caddy_admin_endpoint;
  diagnostics = [];
}

abbrev runtime_unhealthy_state :
    Option String → Option ℕ → Option String → String → String → Option String → RuntimeState
runtime_unhealthy_state binary_path process_id admin_endpoint code message operation = record {
  status = RuntimeStatus.unhealthy;
  binary_path = binary_path;
  version = none;
  process_id = process_id;
  admin_endpoint = admin_endpoint;
  diagnostics = record { code = code; message = message; operation = operation } ∷ [];
}

-- A process that is spawned gets its id.
spawn : Call (Option ℕ)
spawn = call >>= λ _ m. (
  record m { runtime = record m.runtime { process_ids = tail m.runtime.process_ids } },
  ok (head_id m.runtime.process_ids),
)

-- The bounded wait after the start: the child is expected to run on.
start_check : Status → Call (Unit {0})
start_check alive = pure tt
start_check (exited status) = fail (Str.◌++◌ "real Caddy runtime exited immediately with " status)
start_check (unreadable e) = fail e

-- What comes first: the child's exit, a reload that is accepted, or the deadline.
initial_config : Answer → Call (Unit {0})
initial_config done = pure tt
initial_config (exits status) = fail (
    Str.◌++◌ "real Caddy runtime exited before accepting its initial configuration with status "
      status)
initial_config (fails e) = fail e
initial_config (fails_late e) = fail e
initial_config times_out = fail "real Caddy did not accept its initial configuration in time"

-- A child that was not verified is terminated; the start fails with the first error.
clean_up_start : Status → Process → Process
unfolding terminate_and_join
clean_up_start alive m = (terminate_and_join m).0
clean_up_start (exited status) m = m
clean_up_start (unreadable e) m = m

verified : Process × Result (Unit {0}) String → Process × Result (Unit {0}) String
unfolding clean_up_start
verified (m, ok _) = (m, ok tt)
verified (m, err e) = (clean_up_start (status_of (answer m)) (answered m), err e)

wait_for_initial_config : Call (Unit {0})
unfolding initial_config verified
wait_for_initial_config m = verified (initial_config (answer m) (answered m))

started : LogEnv → List ℕ → Option ℕ → Process → Process
started l config process_id m =
    let image = m.runtime.image in
    control_log l LogSeverity.info "real Caddy runtime started" "start" (
      with_snapshot (runtime_running_state (some image.path) process_id (some image.version)) (
        with_child (some (record { binary = image.path; process_id = process_id; config = config }))
          m))

start_process : LogEnv → List ℕ → Call (Unit {0})
unfolding spawn start_check wait_for_initial_config started
start_process l config = do
  call
  process_id ← spawn
  λ m. start_check (status_of (answer m)) (answered m)
  wait_for_initial_config
  λ m. (started l config process_id m, ok tt)

start_owning : Option OwnedRuntimeProcess → LogEnv → List ℕ → Call (Unit {0})
unfolding start_process
start_owning (some owned) l config = fail "real Caddy runtime already owns a child process"
start_owning none l config = start_process l config

unfoldable pub start : LogEnv → List ℕ → Call (Unit {0})
unfolding start_owning
start l config m = start_owning m.runtime.child l config m

-- Caddy has taken the configuration.
abbrev pub taking : List ℕ → Option OwnedRuntimeProcess → Option OwnedRuntimeProcess
taking config none = none
taking config (some owned) = some (record owned { config = config })

abbrev take_config : List ℕ → Process → Process
take_config config m = with_child (taking config m.runtime.child) m

-- The output of `caddy reload`, which may fail after Caddy has taken the configuration.
submitted : List ℕ → Answer → Call (Unit {0})
submitted config done m = (take_config config m, ok tt)
submitted config (fails_late e) m = (take_config config m, err e)
submitted config (exits status) m = (m, err (Str.◌++◌ "caddy reload failed: " status))
submitted config (fails e) m = (m, err e)
submitted config times_out m = (m, err "real Caddy reload timed out")

submit_reload : List ℕ → Call (Unit {0})
unfolding submitted
submit_reload config = do call; λ m. submitted config (answer m) (answered m)

reload_logged : LogEnv → Process × Result (Unit {0}) String → Process × Result (Unit {0}) String
reload_logged l (m, ok _) =
    (control_log l LogSeverity.info "real Caddy runtime reloaded" "reload" m, ok tt)
reload_logged l (m, err e) = (control_log l LogSeverity.error e "reload" m, err e)

unfoldable pub reload : LogEnv → List ℕ → Call (Unit {0})
unfolding submit_reload reload_logged
reload l config = do call; λ m. reload_logged l (submit_reload config m)

-- A child that has exited is forgotten, so that it is started anew.
running_by : LogEnv → Status → Call Bool
running_by l alive m = (m, ok true)
running_by l (exited status) m = (
  with_child none (
      control_log l LogSeverity.warn
        (Str.◌++◌ (Str.◌++◌ "real Caddy runtime exited with status " status) "; restarting")
        "runtime-liveness" m),
  ok false,
)
running_by l (unreadable e) m = (
  control_log l LogSeverity.error
      (Str.◌++◌ (Str.◌++◌ "could not inspect real Caddy runtime: " e) "; retaining owned child")
      "runtime-liveness" m,
  err e,
)

running_owned : LogEnv → Option OwnedRuntimeProcess → Call Bool
unfolding running_by
running_owned l none m = (m, ok false)
running_owned l (some owned) m = running_by l (status_of (answer m)) (answered m)

unfoldable pub runtime_is_running : LogEnv → Call Bool
unfolding running_owned
runtime_is_running l m = running_owned l m.runtime.child m

inspected : OwnedRuntimeProcess → Status → RuntimeState
inspected owned alive = runtime_running_state (some owned.binary) owned.process_id none
inspected owned (exited status) =
    runtime_unhealthy_state (some owned.binary) owned.process_id none "runtime-exited"
      (Str.◌++◌ "real Caddy runtime exited with status " status) (some "inspect")
inspected owned (unreadable e) =
    runtime_unhealthy_state (some owned.binary) owned.process_id (some caddy_admin_endpoint)
      "runtime-inspect-failed" (Str.◌++◌ "could not inspect real Caddy runtime: " e)
      (some "inspect")

shown : RuntimeState → Process → Process × RuntimeState
shown s m = (with_snapshot s m, s)

inspect_owned : Option OwnedRuntimeProcess → Process → Process × RuntimeState
unfolding inspected shown
inspect_owned none m = shown idle_runtime m
inspect_owned (some owned) m = shown (inspected owned (status_of (answer m))) (answered m)

-- While another task holds the child, the last snapshot is shown.
inspect_locked : Waited → Process → Process × RuntimeState
unfolding inspect_owned
inspect_locked elapsed m = (m, m.runtime.snapshot)
inspect_locked joined m = inspect_owned m.runtime.child m
inspect_locked (broken e) m = inspect_owned m.runtime.child m

unfoldable pub inspect : Process → Process × RuntimeState
unfolding inspect_locked
inspect m = inspect_locked (waited (answer m)) (answered m)
