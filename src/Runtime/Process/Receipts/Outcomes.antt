-- ===== src/Runtime/Process/Receipts/Outcomes.antt =====
-- Applying a configuration over a Caddy process, and stopping it, from the begin to the receipt.
use cadder.Base.{
  ℕ, String, ◌≡◌, refl, subst, ◌∙◌, Bool, true, false, Option, none, some, List, Result, ok, err,
}
use cadder.Runtime.{LogEnv}
use cadder.Runtime.Process.Files.{stage, read_effective_config}
use cadder.Runtime.Process.Files.Laws.{
  stage_lem, read_effective_config_lem, stage_refused, read_effective_config_refused,
}
use cadder.Runtime.Process.Holding.{Held, held, IsKept, OnOk, OnOk-bind, OnErr, OnErr-bind}
use cadder.Runtime.Process.Receipts.{
  ProcessRuntimeApplyReceipt, attempt, reload_or_start, begin_apply_config,
}
use cadder.Runtime.Process.Start.{start, reload, runtime_is_running}
use cadder.Runtime.Process.Start.Laws.{
  IsStarted, start_lem, IsReloaded, reload-IsReloaded, IsFound, runtime_is_running-IsFound,
  runtime_is_running_refused,
}
use cadder.Runtime.Process.World.{OwnedRuntimeProcess, Process, ◌>>=◌, pure}

-- Caddy was running and has been reloaded, perhaps in vain, or it was not and has been started.
abbrev pub Tried : List ℕ → Bool → Held → Result (Unit {0}) String → Process → Type 0
Tried rendered true h o m =
    ((c : OwnedRuntimeProcess) × (h.2 ≡ some c)) × IsReloaded rendered h (m, o)
Tried rendered false h (ok u) m = IsStarted rendered (h.0, h.1, none) m
Tried rendered false h (err e) m = Unit {0}

abbrev pub IsBegun :
    List ℕ → Held → ProcessRuntimeApplyReceipt × Result (Unit {0}) String → Process → Type 0
IsBegun rendered h a m =
    (a.0.staged ≡ rendered) × (a.0.previous_config ≡ h.0) × Tried rendered a.0.was_running h a.1 m

attempted :
    (l : LogEnv) (rendered : List ℕ) (was_running : Bool) (h : Held) (m : Process)
    → IsFound h was_running m
    → OnOk
        (λ o m'. Tried rendered was_running h o m')
        (attempt (reload_or_start l rendered was_running) m)
unfolding reload_or_start
attempted l rendered true h m (kept, c) = (
  c,
  subst (λ k. IsReloaded rendered k (reload l rendered m)) kept (reload-IsReloaded l rendered m),
)
attempted l rendered false h m gone = by_result (start l rendered m) (start_lem l rendered m)
  where
    by_result :
        (p : Process × Result (Unit {0}) String)
        → OnOk (λ _ m'. IsStarted rendered (held m) m') p
        → Tried rendered false h p.1 p.0
    by_result (m', ok u) s = subst (λ k. IsStarted rendered k m') gone s
    by_result (m', err e) s = tt

-- The steps after the previous configuration was read, and after the new one was staged.
begin_rest :
    (l : LogEnv) (previous : Option (List ℕ)) (staged : List ℕ) (h : Held) (m : Process)
    → IsKept h m
    → previous ≡ h.0
    → OnOk (IsBegun staged h) (
        (do
          was_running ← runtime_is_running l
          outcome ← attempt (reload_or_start l staged was_running)
          pure (
            record { staged = staged; previous_config = previous; was_running = was_running },
            outcome,
          ))
          m)
begin_rest l previous staged h m kept same =
    OnOk-bind (IsFound h) (IsBegun staged h) (runtime_is_running l)
      (λ was_running. do
        outcome ← attempt (reload_or_start l staged was_running)
        pure (
          record { staged = staged; previous_config = previous; was_running = was_running },
          outcome,
        ))
      m
      (subst (λ k. OnOk (IsFound k) (runtime_is_running l m)) kept (runtime_is_running-IsFound l m))
      (λ was_running m₁ found.
        OnOk-bind (λ o m'. Tried staged was_running h o m') (IsBegun staged h)
          (attempt (reload_or_start l staged was_running))
          (λ outcome. pure (
            record { staged = staged; previous_config = previous; was_running = was_running },
            outcome,
          ))
          m₁ (attempted l staged was_running h m₁ found) (λ outcome m₂ tried. (refl, same, tried)))

pub begin_apply_config-IsBegun :
    (l : LogEnv) (rendered : List ℕ) (m : Process)
    → OnOk (IsBegun rendered (held m)) (begin_apply_config l rendered m)
unfolding begin_apply_config
begin_apply_config-IsBegun l rendered m =
    OnOk-bind (λ c m₁. (c ≡ m.runtime.effective) × IsKept (held m) m₁) (IsBegun rendered (held m))
      read_effective_config
      (λ previous. do
        staged ← stage rendered
        was_running ← runtime_is_running l
        outcome ← attempt (reload_or_start l staged was_running)
        pure (
          record { staged = staged; previous_config = previous; was_running = was_running },
          outcome,
        ))
      m (read_effective_config_lem m)
      (λ previous m₁ (same, kept).
        OnOk-bind (λ staged m₂. (staged ≡ rendered) × IsKept (held m₁) m₂)
          (IsBegun rendered (held m)) (stage rendered)
          (λ staged. do
            was_running ← runtime_is_running l
            outcome ← attempt (reload_or_start l staged was_running)
            pure (
              record { staged = staged; previous_config = previous; was_running = was_running },
              outcome,
            ))
          m₁ (stage_lem rendered m₁)
          (λ staged m₂ (bytes, kept_on).
            subst
              (λ b. OnOk (IsBegun b (held m)) (
                (do
                  was_running ← runtime_is_running l
                  outcome ← attempt (reload_or_start l staged was_running)
                  pure (
                    record {
                      staged = staged;
                      previous_config = previous;
                      was_running = was_running;
                    },
                    outcome,
                  ))
                  m₂))
              bytes (begin_rest l previous staged (held m) m₂ (kept_on ∙ kept) same)))

-- A begin that is refused changes nothing that the runtime holds.
pub begin_apply_config_refused :
    (l : LogEnv) (rendered : List ℕ) (m : Process)
    → OnErr (IsKept (held m)) (begin_apply_config l rendered m)
unfolding begin_apply_config
begin_apply_config_refused l rendered m =
    OnErr-bind (λ c m₁. (c ≡ m.runtime.effective) × IsKept (held m) m₁) (IsKept (held m))
      read_effective_config
      (λ previous. do
        staged ← stage rendered
        was_running ← runtime_is_running l
        outcome ← attempt (reload_or_start l staged was_running)
        pure (
          record { staged = staged; previous_config = previous; was_running = was_running },
          outcome,
        ))
      m (read_effective_config_refused m) (read_effective_config_lem m)
      (λ previous m₁ (same, kept).
        OnErr-bind (λ staged m₂. (staged ≡ rendered) × IsKept (held m₁) m₂) (IsKept (held m))
          (stage rendered)
          (λ staged. do
            was_running ← runtime_is_running l
            outcome ← attempt (reload_or_start l staged was_running)
            pure (
              record { staged = staged; previous_config = previous; was_running = was_running },
              outcome,
            ))
          m₁ (from m₁ kept (stage rendered m₁) (stage_refused rendered m₁)) (stage_lem rendered m₁)
          (λ staged m₂ (bytes, kept_on).
            OnErr-bind (λ b m₃. Unit {0}) (IsKept (held m)) (runtime_is_running l)
              (λ was_running. do
                outcome ← attempt (reload_or_start l staged was_running)
                pure (
                  record { staged = staged; previous_config = previous; was_running = was_running },
                  outcome,
                ))
              m₂
              (from m₂ (kept_on ∙ kept) (runtime_is_running l m₂) (runtime_is_running_refused l m₂))
              (trivial (runtime_is_running l m₂)) (λ was_running m₃ u. tt)))
  where
    from :
        {A : Type 0} (n : Process)
        → IsKept (held m) n
        → (p : Process × Result A String) → OnErr (IsKept (held n)) p
        → OnErr (IsKept (held m)) p
    from n kept p h = subst (λ k. OnErr (IsKept k) p) kept h

    trivial : (p : Process × Result Bool String) → OnOk (λ b m₃. Unit {0}) p
    trivial (m', ok b) = tt
    trivial (m', err e) = tt
