-- ===== src/Runtime/Process/Receipts.antt =====
-- How a configuration is applied, and how Caddy is stopped, with the receipts by which this is
-- accepted or rolled back: `begin_apply_config` and `begin_stop` of
-- crates/cadder-daemon/src/runtime/process.rs, and crates/cadder-daemon/src/runtime/process/receipts.rs.
pub mod Rollback
pub mod Outcomes
pub mod Settled
use cadder.Base.{
  ℕ, String, Bool, true, false, ◌&&◌, Option, none, some, List, Result, ok, err, if◌then◌else◌,
}
use cadder.Runtime.{LogEnv, Runtime}
use cadder.Runtime.Process.Files.{
  stage, promote, read_effective_config, remove_effective_config, restore_effective_config,
}
use cadder.Runtime.Process.Start.{start, reload, runtime_is_running}
use cadder.Runtime.Process.Stop.{stop}
use cadder.Runtime.Process.World.{ProcessState, Process, Call, ◌>>=◌, ◌>>◌, pure, fail}

-- A call whose error is a value for the caller.
abbrev attempt : Call (Unit {0}) → Call (Result (Unit {0}) String)
attempt c m = let (m', r) = c m in (m', ok r)

pub record ProcessRuntimeApplyReceipt : Type 0 where
  pub staged : List ℕ
  pub previous_config : Option (List ℕ)
  pub was_running : Bool

pub record ProcessRuntimeStopReceipt : Type 0 where
  pub previous_config : Option (List ℕ)
  pub was_running : Bool

abbrev reload_or_start : LogEnv → List ℕ → Bool → Call (Unit {0})
unfolding start reload
reload_or_start l staged true = reload l staged
reload_or_start l staged false = start l staged

unfoldable pub begin_apply_config :
    LogEnv → List ℕ → Call (ProcessRuntimeApplyReceipt × Result (Unit {0}) String)
unfolding stage read_effective_config runtime_is_running reload_or_start
begin_apply_config l rendered = do
  previous ← read_effective_config
  staged ← stage rendered
  was_running ← runtime_is_running l
  outcome ← attempt (reload_or_start l staged was_running)
  pure (record { staged = staged; previous_config = previous; was_running = was_running }, outcome)

abbrev is_none {ℓ} : {A : Type ℓ} → Option A → Bool
is_none none = true
is_none (some a) = false

abbrev stop_running : Bool → Call (Unit {0})
unfolding stop
stop_running true = stop
stop_running false = pure tt

-- Without a configuration to go back to, a running Caddy is not stopped.
stop_recoverable :
    Option (List ℕ) → Bool → Call (ProcessRuntimeStopReceipt × Result (Unit {0}) String)
unfolding stop_running
stop_recoverable previous was_running =
    if was_running && is_none previous
    then fail "running Caddy runtime does not have an effective config for rollback"
    else do
      outcome ← attempt (stop_running was_running)
      pure (record { previous_config = previous; was_running = was_running }, outcome)

unfoldable pub begin_stop : LogEnv → Call (ProcessRuntimeStopReceipt × Result (Unit {0}) String)
unfolding read_effective_config runtime_is_running stop_recoverable
begin_stop l = do
  previous ← read_effective_config
  was_running ← runtime_is_running l
  stop_recoverable previous was_running

unfoldable pub accept_apply : ProcessRuntimeApplyReceipt → Call (Unit {0})
unfolding promote
accept_apply r = promote r.staged

unfoldable pub accept_stop : ProcessRuntimeStopReceipt → Call (Unit {0})
unfolding remove_effective_config
accept_stop r = remove_effective_config

-- A rollback that failed, with the errors of the cleanup that followed.
pub record RollbackFailure : Type 0 where
  pub error : String
  pub stop_error : Option String
  pub restore_error : Option String

abbrev error_of : Result (Unit {0}) String → Option String
error_of (ok _) = none
error_of (err e) = some e

-- Caddy is stopped and the file restored, whatever fails.
fail_closed :
    Option (List ℕ)
    → Process × Result (Unit {0}) String
    → Process × Result (Unit {0}) RollbackFailure
unfolding stop restore_effective_config
fail_closed previous (m, ok _) = (m, ok tt)
fail_closed previous (m, err e) =
    let (stopped, stop_result) = stop m in
    let (restored, restore_result) = restore_effective_config previous stopped in
    (
      restored,
      err (record {
        error = e;
        stop_error = error_of stop_result;
        restore_error = error_of restore_result;
      }),
    )

reload_previous : LogEnv → Option (List ℕ) → Call (Unit {0})
unfolding stage reload promote
reload_previous l none = fail "running Caddy runtime did not have a previous effective config"
reload_previous l (some previous) = do staged ← stage previous; reload l staged; promote staged

undo_apply : LogEnv → Option (List ℕ) → Bool → Call (Unit {0})
unfolding reload_previous stop restore_effective_config
undo_apply l previous true = reload_previous l previous
undo_apply l previous false = do stop; restore_effective_config previous

unfoldable pub rollback_apply :
    LogEnv → ProcessRuntimeApplyReceipt → Process → Process × Result (Unit {0}) RollbackFailure
unfolding undo_apply fail_closed
rollback_apply l r m =
    fail_closed r.previous_config (undo_apply l r.previous_config r.was_running m)

start_previous : LogEnv → Option (List ℕ) → Call (Unit {0})
unfolding stage start promote
start_previous l none = fail "running Caddy runtime did not have a previous effective config"
start_previous l (some previous) = do staged ← stage previous; start l staged; promote staged

undo_stop : LogEnv → Option (List ℕ) → Bool → Call (Unit {0})
unfolding start_previous restore_effective_config
undo_stop l previous true = start_previous l previous
undo_stop l previous false = restore_effective_config previous

unfoldable pub rollback_stop :
    LogEnv → ProcessRuntimeStopReceipt → Process → Process × Result (Unit {0}) RollbackFailure
unfolding undo_stop fail_closed
rollback_stop l r m = fail_closed r.previous_config (undo_stop l r.previous_config r.was_running m)
