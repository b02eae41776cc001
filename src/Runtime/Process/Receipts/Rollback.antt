-- ===== src/Runtime/Process/Receipts/Rollback.antt =====
-- What a rollback of the process runtime leaves behind, whether it succeeds or fails closed.
use cadder.Base.{
  ℕ, String, ◌≡◌, refl, sym, subst, ap, ◌∙◌, Bool, true, false, Option, none, some, List, Result,
  ok, err,
}
use cadder.Runtime.{LogEnv}
use cadder.Runtime.Process.Files.{stage, promote, restore_effective_config}
use cadder.Runtime.Process.Files.Laws.{
  with_file, stage_lem, promote_lem, restore_effective_config_lem, restore_effective_config-child,
}
use cadder.Runtime.Process.Holding.{Held, held, IsKept, IsGone, OnOk, OnOk-bind, OnOk-weaken}
use cadder.Runtime.Process.Receipts.{
  ProcessRuntimeApplyReceipt, ProcessRuntimeStopReceipt, RollbackFailure, error_of, fail_closed,
  reload_previous, undo_apply, rollback_apply, start_previous, undo_stop, rollback_stop,
}
use cadder.Runtime.Process.Start.{start, taking, reload}
use cadder.Runtime.Process.Start.Laws.{IsStarted, start_lem, IsTaken, IsReloaded, reload-IsReloaded}
use cadder.Runtime.Process.Stop.{stop}
use cadder.Runtime.Process.Stop.Forced.{IsForced, stop-IsForced}
use cadder.Runtime.Process.World.{Process, Call, ◌>>=◌, ◌>>◌}

reload_lem :
    (l : LogEnv) (config : List ℕ) (m : Process)
    → OnOk (λ _ m'. IsTaken config (held m) m') (reload l config m)
reload_lem l config m = by_result (reload l config m) (reload-IsReloaded l config m)
  where
    by_result :
        (p : Process × Result (Unit {0}) String)
        → IsReloaded config (held m) p
        → OnOk (λ _ m'. IsTaken config (held m) m') p
    by_result (m', ok u) h = h
    by_result (m', err e) h = tt

stop_lem : (m : Process) → OnOk (λ _ m'. IsGone (held m) m') (stop m)
stop_lem m = by_result (stop m) (stop-IsForced m)
  where
    by_result :
        (p : Process × Result (Unit {0}) String)
        → IsForced (held m) p
        → OnOk (λ _ m'. IsGone (held m) m') p
    by_result (m', ok u) h = h.0
    by_result (m', err e) h = tt

-- Caddy was running, and runs with the configuration of before, which is in the file.
abbrev pub IsReturned : Option (List ℕ) → Bool → Held → Process → Type 0
IsReturned previous true h m =
    (p : List ℕ) × (previous ≡ some p) × (held m ≡ (some p, h.1, taking p h.2))
IsReturned previous false h m = held m ≡ (previous, h.1, none)

-- What follows a staging that succeeded works on the bytes that were given.
staging_lem :
    (p : List ℕ) (m : Process) (Q : Held → Unit {0} → Process → Type 0)
    (f : List ℕ → Call (Unit {0}))
    → ((m' : Process) → OnOk (Q (held m')) (f p m'))
    → OnOk (Q (held m)) ((stage p >>= f) m)
staging_lem p m Q f step =
    OnOk-bind (λ staged m₁. (staged ≡ p) × IsKept (held m) m₁) (Q (held m)) (stage p) f m
      (stage_lem p m)
      (λ staged m₁ (same, kept).
        subst (λ c. OnOk (Q (held m)) (f c m₁)) (sym same)
          (subst (λ h. OnOk (Q h) (f p m₁)) kept (step m₁)))

reload-promote :
    (l : LogEnv) (p : List ℕ) (m : Process)
    → OnOk (λ _ m'. IsReturned (some p) true (held m) m') ((do reload l p; promote p) m)
reload-promote l p m =
    OnOk-bind (λ _ m₁. IsTaken p (held m) m₁) (λ _ m'. IsReturned (some p) true (held m) m')
      (reload l p) (λ _. promote p) m (reload_lem l p m)
      (λ _ m₁ taken.
        OnOk-weaken (λ _ m'. held m' ≡ with_file (some p) (held m₁))
          (λ _ m'. IsReturned (some p) true (held m) m') (promote p m₁)
          (λ _ m' e. (p, refl, e ∙ ap (with_file (some p)) taken)) (promote_lem p m₁))

reload_previous_lem :
    (l : LogEnv) (previous : Option (List ℕ)) (m : Process)
    → OnOk (λ _ m'. IsReturned previous true (held m) m') (reload_previous l previous m)
unfolding reload_previous
reload_previous_lem l none m = tt
reload_previous_lem l (some p) m =
    staging_lem p m (λ h _ m'. IsReturned (some p) true h m') (λ c. do reload l c; promote c)
      (reload-promote l p)

undo_apply_lem :
    (l : LogEnv) (previous : Option (List ℕ)) (was_running : Bool) (m : Process)
    → OnOk
        (λ _ m'. IsReturned previous was_running (held m) m')
        (undo_apply l previous was_running m)
unfolding undo_apply
undo_apply_lem l previous true m = reload_previous_lem l previous m
undo_apply_lem l previous false m =
    OnOk-bind (λ _ m₁. IsGone (held m) m₁) (λ _ m'. IsReturned previous false (held m) m') stop
      (λ _. restore_effective_config previous) m (stop_lem m)
      (λ _ m₁ gone.
        OnOk-weaken (λ _ m'. held m' ≡ with_file previous (held m₁))
          (λ _ m'. IsReturned previous false (held m) m') (restore_effective_config previous m₁)
          (λ _ m' e. e ∙ ap (with_file previous) gone) (restore_effective_config_lem previous m₁))

-- Caddy was running, and a child runs anew with the configuration of before, which is in the file.
abbrev pub IsRestarted : Option (List ℕ) → Bool → Held → Process → Type 0
IsRestarted previous true h m =
    (p : List ℕ) × (previous ≡ some p)
    × ((process_id : Option ℕ) × (held m ≡ (
      some p,
      h.1,
      some (record { binary = h.1.path; process_id = process_id; config = p }),
    )))
IsRestarted previous false h m = held m ≡ (previous, h.1, h.2)

start-promote :
    (l : LogEnv) (p : List ℕ) (m : Process)
    → OnOk (λ _ m'. IsRestarted (some p) true (held m) m') ((do start l p; promote p) m)
start-promote l p m =
    OnOk-bind (λ _ m₁. IsStarted p (held m) m₁) (λ _ m'. IsRestarted (some p) true (held m) m')
      (start l p) (λ _. promote p) m (start_lem l p m)
      (λ _ m₁ (process_id, fresh).
        OnOk-weaken (λ _ m'. held m' ≡ with_file (some p) (held m₁))
          (λ _ m'. IsRestarted (some p) true (held m) m') (promote p m₁)
          (λ _ m' e. (p, refl, (process_id, e ∙ ap (with_file (some p)) fresh))) (promote_lem p m₁))

start_previous_lem :
    (l : LogEnv) (previous : Option (List ℕ)) (m : Process)
    → OnOk (λ _ m'. IsRestarted previous true (held m) m') (start_previous l previous m)
unfolding start_previous
start_previous_lem l none m = tt
start_previous_lem l (some p) m =
    staging_lem p m (λ h _ m'. IsRestarted (some p) true h m') (λ c. do start l c; promote c)
      (start-promote l p)

undo_stop_lem :
    (l : LogEnv) (previous : Option (List ℕ)) (was_running : Bool) (m : Process)
    → OnOk
        (λ _ m'. IsRestarted previous was_running (held m) m')
        (undo_stop l previous was_running m)
unfolding undo_stop
undo_stop_lem l previous true m = start_previous_lem l previous m
undo_stop_lem l previous false m = restore_effective_config_lem previous m

-- What a cleanup brings about unless it has an error.
abbrev pub Unless : Type 0 → Option String → Type 0
Unless P none = P
Unless P (some e) = Unit {0}

-- A rollback that fails stops Caddy and restores the file, as far as its two errors do not say else.
abbrev pub IsRolledBack :
    (Process → Type 0) → Option (List ℕ) → Process × Result (Unit {0}) RollbackFailure → Type 0
IsRolledBack W previous (m, ok u) = W m
IsRolledBack W previous (m, err f) =
    Unless (m.runtime.child ≡ none) f.stop_error
    × Unless (m.runtime.effective ≡ previous) f.restore_error

stopped-child : (m : Process) → Unless ((stop m).0.runtime.child ≡ none) (error_of (stop m).1)
stopped-child m = by_result (stop m) (stop-IsForced m)
  where
    by_result :
        (p : Process × Result (Unit {0}) String)
        → IsForced (held m) p
        → Unless (p.0.runtime.child ≡ none) (error_of p.1)
    by_result (m', ok u) g = ap (λ (k : Held). k.2) g.0
    by_result (m', err e) g = tt

restored-effective :
    (previous : Option (List ℕ)) (m : Process)
    → Unless
        ((restore_effective_config previous m).0.runtime.effective ≡ previous)
        (error_of (restore_effective_config previous m).1)
restored-effective previous m =
    by_result (restore_effective_config previous m) (restore_effective_config_lem previous m)
  where
    by_result :
        (p : Process × Result (Unit {0}) String)
        → OnOk (λ _ m'. held m' ≡ with_file previous (held m)) p
        → Unless (p.0.runtime.effective ≡ previous) (error_of p.1)
    by_result (m', ok u) g = ap (λ (k : Held). k.0) g
    by_result (m', err e) g = tt

Unless-map : (P Q : Type 0) (e : Option String) → (P → Q) → Unless P e → Unless Q e
Unless-map P Q none f h = f h
Unless-map P Q (some e) f h = tt

fail_closed-IsRolledBack :
    (W : Process → Type 0) (previous : Option (List ℕ)) (p : Process × Result (Unit {0}) String)
    → OnOk (λ _ m. W m) p
    → IsRolledBack W previous (fail_closed previous p)
unfolding fail_closed
fail_closed-IsRolledBack W previous (m, ok u) h = h
fail_closed-IsRolledBack W previous (m, err e) h =
    let stopped = (stop m).0 in
    (
      Unless-map (stopped.runtime.child ≡ none)
          ((restore_effective_config previous stopped).0.runtime.child ≡ none) (error_of (stop m).1)
          (λ gone. restore_effective_config-child previous stopped ∙ gone) (stopped-child m),
      restored-effective previous stopped,
    )

-- A rollback of an apply that succeeds puts the previous file back, with the running child at that
-- configuration, or with no child if Caddy was not running. One that fails has stopped Caddy unless it
-- reports an error of the stop, and has put the file back unless it reports an error of that.
pub rollback_apply-IsRolledBack :
    (l : LogEnv) (r : ProcessRuntimeApplyReceipt) (m : Process)
    → IsRolledBack
        (IsReturned r.previous_config r.was_running (held m))
        r.previous_config
        (rollback_apply l r m)
unfolding rollback_apply
rollback_apply-IsRolledBack l r m =
    fail_closed-IsRolledBack (IsReturned r.previous_config r.was_running (held m)) r.previous_config
      (undo_apply l r.previous_config r.was_running m)
      (undo_apply_lem l r.previous_config r.was_running m)

pub rollback_stop-IsRolledBack :
    (l : LogEnv) (r : ProcessRuntimeStopReceipt) (m : Process)
    → IsRolledBack
        (IsRestarted r.previous_config r.was_running (held m))
        r.previous_config
        (rollback_stop l r m)
unfolding rollback_stop
rollback_stop-IsRolledBack l r m =
    fail_closed-IsRolledBack (IsRestarted r.previous_config r.was_running (held m))
      r.previous_config (undo_stop l r.previous_config r.was_running m)
      (undo_stop_lem l r.previous_config r.was_running m)
