-- ===== src/Caddy/Coordinator/Actions.antt =====
-- What `begin_apply` decides.
use cadder.Base.{
  ℕ, String, ◌≡◌, refl, ◌↔◌, Bool, true, false, ◌&&◌, ◌||◌, List, [], ◌∷◌, ◌++◌, all, is_empty,
  if◌then◌else◌, string_eq, arith, All, sym, ◌∙◌, not, Bool-cases, inl, inr, ◌⊎◌,
}
use cadder.Base.Dict.{lookup}
use cadder.Caddy.Config.{active_domains}
use cadder.Caddy.Config.Isolation.{enables, set_member-active_domains}
use cadder.Caddy.Conflicts.{detect_conflicts}
use cadder.Caddy.Domains.{DomainSet, set_member}
use cadder.Caddy.Externals.{Externals}
use cadder.Caddy.Coordinator.{
  Coordinator, CaddyApplyAction, unchanged, stop, failed_state, prune, enabled_diagnostics,
  enabled_only, serves_nothing, apply_action, decide_action, begin_apply,
}
use cadder.Protocol.State.{is_enabled, EntrypointRegistration, ConfigDiagnostic}
use cadder.Registrations.Conflicts.{serves}
use text.Mathlib.TextEquality.{eq_iff}

-- What stands in the way of a new configuration: diagnostics of enabled registrations, and
-- conflicts.
abbrev pub obstacles : List EntrypointRegistration → Coordinator → List ConfigDiagnostic
obstacles rs c = enabled_diagnostics rs (prune rs c).registration_diagnostics ++ detect_conflicts rs

abbrev pub IsUnserved : EntrypointRegistration → Type 0
IsUnserved r = (k : String) → serves k r ≡ false

set_empty_iff : (m : DomainSet) → (is_empty m ≡ true) ↔ ((k : String) → set_member k m ≡ false)
unfolding lookup
set_empty_iff [] = ((λ _ k. refl), (λ _. refl))
set_empty_iff ((j, u) ∷ m) = ((λ e. cc), (λ h. absurd (ground (arith, h j, eq_iff j j))))

serves_nothing_iff :
    (r : EntrypointRegistration) → (serves_nothing r ≡ true) ↔ ((k : String) → enables k r ≡ false)
unfolding serves_nothing
serves_nothing_iff r = (
  λ e k. sym (set_member-active_domains k r) ∙ (set_empty_iff (active_domains r)).0 e k,
  λ h. (set_empty_iff (active_domains r)).1 (λ k. set_member-active_domains k r ∙ h k),
)

abbrev is_idle : EntrypointRegistration → Bool
is_idle r = not (is_enabled r.activation_state) || serves_nothing r

is_idle_iff : (r : EntrypointRegistration) → (is_idle r ≡ true) ↔ IsUnserved r
unfolding serves
is_idle_iff r = (
  λ e k. ground (arith, e, λ (h : serves_nothing r ≡ true). (serves_nothing_iff r).0 h k),
  λ h. elim (Bool-cases (is_enabled r.activation_state)) [
    | inr off ↦ ground (arith, off)
    | inl on ↦
        let empty = (serves_nothing_iff r).1 (λ k. ground (arith, on, h k)) in ground (arith, empty)
  ],
)

all-enabled_only-cons :
    (r : EntrypointRegistration) (rs : List EntrypointRegistration)
    → all serves_nothing (enabled_only (r ∷ rs))
      ≡ (is_idle r && all serves_nothing (enabled_only rs))
all-enabled_only-cons r rs = ground arith

all-IsUnserved_iff :
    (rs : List EntrypointRegistration)
    → (all serves_nothing (enabled_only rs) ≡ true) ↔ All IsUnserved rs
all-IsUnserved_iff [] = ((λ _. tt), (λ _. refl))
all-IsUnserved_iff (r ∷ rs) = (
  λ e. (
    (is_idle_iff r).0 (ground (arith, e, all-enabled_only-cons r rs)),
    (all-IsUnserved_iff rs).0 (ground (arith, e, all-enabled_only-cons r rs)),
  ),
  λ h.
      all-enabled_only-cons r rs
      ∙ ground (arith, (is_idle_iff r).1 h.0, (all-IsUnserved_iff rs).1 h.1),
)

-- The step is refused exactly when there is an obstacle; then the coordinator's state says so, with
-- the obstacles, and keeps the hash of the configuration in effect.
pub begin_apply-obstacles :
    (x : Externals) (now : ℕ) (rs : List EntrypointRegistration) (c : Coordinator)
    (d : ConfigDiagnostic) (ds : List ConfigDiagnostic)
    → obstacles rs c ≡ d ∷ ds
    → begin_apply x now rs c ≡ (
      record (prune rs c) { current = failed_state now (d ∷ ds) c.current },
      unchanged (failed_state now (d ∷ ds) c.current),
    )
unfolding begin_apply decide_action prune
begin_apply-obstacles x now rs c d ds e = rw (e, begin_apply)

-- Without an obstacle, Caddy is to stop exactly when no registration serves a domain; otherwise it
-- is to apply the rendered configuration of the enabled registrations.
pub begin_apply_free :
    (x : Externals) (now : ℕ) (rs : List EntrypointRegistration) (c : Coordinator)
    → obstacles rs c ≡ []
    → ((begin_apply x now rs c).0 ≡ prune rs c)
      × (((begin_apply x now rs c).1 ≡ stop now) ↔ All IsUnserved rs)
      × (¬ All IsUnserved rs
          → (begin_apply x now rs c).1 ≡ apply_action x now (enabled_only rs) (prune rs c))
unfolding begin_apply decide_action apply_action
begin_apply_free x now rs c e = rw (e, begin_apply) (refl, (by_test test).0, (by_test test).1)
  where
    test :
        (all serves_nothing (enabled_only rs) ≡ true)
        ⊎ (all serves_nothing (enabled_only rs) ≡ false)
    test = Bool-cases (all serves_nothing (enabled_only rs))

    chosen : CaddyApplyAction
    chosen =
        if all serves_nothing (enabled_only rs)
        then stop now
        else apply_action x now (enabled_only rs) (prune rs c)

    by_test :
        (all serves_nothing (enabled_only rs) ≡ true)
          ⊎ (all serves_nothing (enabled_only rs) ≡ false)
        → ((chosen ≡ stop now) ↔ All IsUnserved rs)
          × (¬ All IsUnserved rs → chosen ≡ apply_action x now (enabled_only rs) (prune rs c))
    by_test (inl idle) = rw idle (
      ((λ _. (all-IsUnserved_iff rs).0 idle), (λ _. refl)),
      (λ n. absurd (n ((all-IsUnserved_iff rs).0 idle))),
    )
    by_test (inr busy) =
        rw busy (((λ h. cc h), (λ h. cc ((all-IsUnserved_iff rs).1 h, busy))), (λ _. refl))
