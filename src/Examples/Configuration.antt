-- ===== src/Examples/Configuration.antt =====
-- The effective configuration.
use cadder.Base.{
  ℕ, String, ◌≡◌, refl, ◌↔◌, ◌≤◌, Bool, true, false, ◌||◌, Option, none, some, List, [], ◌∷◌, All,
  Any, any, ◌==◌, string_eq, subst, sym, ==→eq, ◌≢◌, arith, inl,
}
use cadder.Base.Dict.{Dict, values}
use cadder.Caddy.Config.{compose_routes}
use cadder.Caddy.Config.Isolation.{enables, HasCanonicalNames, compose_routes_isolated}
use cadder.Caddy.Config.Routes.{items_hosts}
use cadder.Caddy.Conflicts.{detect_conflicts}
use cadder.Caddy.Conflicts.Laws.{claims, claims_of, detect_conflicts_iff}
use cadder.Caddy.Conflicts.Agreement.{NamesOnce}
use cadder.Caddy.Coordinator.{
  Coordinator, CaddyApplyAction, unchanged, stop, apply, new_coordinator, failed_state, prune,
  enabled_only, apply_action, begin_apply,
}
use cadder.Caddy.Coordinator.Actions.{IsUnserved, begin_apply_free}
use cadder.Caddy.Domains.{canonicalize_domain}
use cadder.Caddy.Json.{Value, string, array, object, end, field, from_list}
use cadder.Examples.{externals, shop, rival}
use cadder.Protocol.State.{is_enabled}
use cadder.Registrations.Exclusive.{IsExclusive, empty-IsExclusive}
use cadder.Registrations.Exclusive.Edits.{insert-IsExclusive}
use text.Mathlib.TextEquality.{eq_iff}

-- A source route that also names a host of nobody.
abbrev source : Dict (List Value)
source =
    (
      "shop",
      object (
            field "match"
              (array (
                from_list (
                  object (
                    field "host"
                      (array (from_list (string "shop.localhost" ∷ string "other.localhost" ∷ [])))
                      end)
                  ∷ [])))
              end)
          ∷ [],
    )
    ∷ []

shop-HasCanonicalNames : HasCanonicalNames (λ s. some s) shop
unfolding canonicalize_domain is_enabled
shop-HasCanonicalNames k h =
    let same : "shop.localhost" ≡ k = ground (arith, h, eq_iff "shop.localhost" k) in
    subst (λ j. canonicalize_domain (λ s. some s) j ≡ j) same refl

compose_routes_isolated_example :
    All
      (λ k. Any (λ r. enables k r ≡ true) (shop ∷ []))
      (items_hosts (λ s. some s) (from_list (compose_routes (λ s. some s) source (shop ∷ []))))
compose_routes_isolated_example =
    compose_routes_isolated (λ s. some s) source (shop ∷ []) (shop-HasCanonicalNames, tt)

detect_conflicts_iff_example :
    (detect_conflicts (shop ∷ rival ∷ []) ≡ []) ↔ ((k : String) → claims k (shop ∷ rival ∷ []) ≤ 1)
detect_conflicts_iff_example = detect_conflicts_iff (shop ∷ rival ∷ [])

shop-NamesOnce : NamesOnce ("shop", shop)
unfolding claims_of is_enabled
shop-NamesOnce k = ground arith

one-IsExclusive : IsExclusive (("shop", shop) ∷ [])
unfolding cadder.Base.Dict.insert cadder.Registrations.active_domain_ownership_conflict
one-IsExclusive = insert-IsExclusive [] shop empty-IsExclusive refl

begin_apply_free_example :
    ((begin_apply externals 7 (shop ∷ []) new_coordinator).0 ≡ prune (shop ∷ []) new_coordinator)
    × (((begin_apply externals 7 (shop ∷ []) new_coordinator).1 ≡ stop 7)
        ↔ All IsUnserved (shop ∷ []))
    × (¬ All IsUnserved (shop ∷ [])
        → (begin_apply externals 7 (shop ∷ []) new_coordinator).1
          ≡ apply_action externals 7 (enabled_only (shop ∷ [])) (prune (shop ∷ []) new_coordinator))
unfolding cadder.Caddy.Coordinator.enabled_diagnostics detect_conflicts prune
begin_apply_free_example = begin_apply_free externals 7 (shop ∷ []) new_coordinator refl
