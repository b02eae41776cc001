-- ===== src/Examples/Processes.antt =====
-- The runtime that owns a Caddy process.
use cadder.Base.{ℕ, ◌≡◌, refl, true, false, none, some, List, [], ◌∷◌, err}
use cadder.LogStore.{default_store}
use cadder.Protocol.State.{idle_runtime}
use cadder.Runtime.{LogEnv}
use cadder.Runtime.Process.Holding.{held}
use cadder.Runtime.Process.Receipts.{ProcessRuntimeApplyReceipt, begin_apply_config, rollback_apply}
use cadder.Runtime.Process.Receipts.Rollback.{IsReturned, IsRolledBack, rollback_apply-IsRolledBack}
use cadder.Runtime.Process.Receipts.Settled.{apply_undone}
use cadder.Runtime.Process.Stop.{stop_until}
use cadder.Runtime.Process.Stop.Confirmed.{IsConfirmed, stop_until-Confirms}
use cadder.Runtime.Process.Stop.Laws.{IsStopped}
use cadder.Runtime.Process.World.{Answer, done, times_out, OwnedRuntimeProcess, Process, tail}

abbrev pub lines_env : LogEnv
lines_env = record { redact = λ s. s; now = 0; fault = none }

abbrev served : List ℕ
served = 1 ∷ []

abbrev wanted : List ℕ
wanted = 2 ∷ []

abbrev pub owned : OwnedRuntimeProcess
owned = record { binary = "/opt/caddy"; process_id = some 7; config = served }

abbrev pub with_answers : List Answer → Process
with_answers answers = record {
  runtime = record {
    image = record { path = "/opt/caddy"; version = "2.8" };
    effective = some served;
    child = some owned;
    snapshot = idle_runtime;
    process_ids = some 8 ∷ [];
    answers = answers;
  };
  logs = default_store;
}

-- The reload takes effect, and then the answer is lost.
abbrev lossy : Process
lossy = with_answers (done ∷ done ∷ done ∷ done ∷ done ∷ Answer.fails_late "connection reset" ∷ [])

abbrev calm : Process
calm = with_answers []

abbrev receipt : ProcessRuntimeApplyReceipt
receipt = record { staged = wanted; previous_config = some served; was_running = true }

abbrev begun : Process → Process
begun m = (begin_apply_config lines_env wanted m).0

abbrev undone : Process
undone = (rollback_apply lines_env receipt (begun lossy)).0

apply_undone_example :
    (undone.runtime.effective ≡ some served) × (undone.runtime.child ≡ some owned)
unfolding begin_apply_config rollback_apply
apply_undone_example =
    apply_undone lines_env wanted lossy (begun lossy) receipt (err "connection reset") refl
      (begun lossy).logs undone refl refl

rollback_apply-IsRolledBack_example :
    IsRolledBack
      (IsReturned (some served) true (held calm))
      (some served)
      (rollback_apply lines_env receipt calm)
rollback_apply-IsRolledBack_example = rollback_apply-IsRolledBack lines_env receipt calm

-- Caddy does not stop in time, and the kill does not end.
abbrev stuck : Process
stuck = with_answers (done ∷ done ∷ done ∷ done ∷ done ∷ times_out ∷ done ∷ times_out ∷ [])

stop_until-stuck : (stop_until stuck).1.quiescent ≡ false
unfolding stop_until
stop_until-stuck = refl

-- Caddy does not stop in time, and is killed and joined.
abbrev killed : Process
killed = with_answers (done ∷ done ∷ done ∷ done ∷ done ∷ times_out ∷ done ∷ done ∷ done ∷ [])

stop_until-killed :
    ((stop_until killed).1.quiescent ≡ true) × ((stop_until killed).0.runtime.child ≡ none)
unfolding stop_until
stop_until-killed = (refl, refl)

stop_until-Confirms_example :
    IsStopped (held killed) (stop_until killed)
    × IsConfirmed (tail killed.runtime.answers) (some owned) (stop_until killed).0
stop_until-Confirms_example = stop_until-Confirms killed
