-- ===== src/Examples/Operators.antt =====
-- An operator's client: a domain that two registrations have, and a daemon that stops.
use cadder.Api.View.{resolve_domain, ambiguous}
use cadder.Api.View.Resolution.{IsResolved, resolve_domain_lem}
use cadder.Base.{◌≡◌, refl, none, some, Option, err, String, ◌∷◌, []}
use cadder.Caddy.Domains.{canonicalize_domain}
use cadder.Examples.{shop, rival}
use cadder.Protocol.Snapshot.{GuiStateSnapshot}
use cadder.Protocol.State.{idle_runtime, idle_config}

abbrev snapshot : GuiStateSnapshot
snapshot = record {
  captured_at_utc = 9;
  registrations = shop ∷ rival ∷ [];
  runtime = idle_runtime;
  config = idle_config;
  storage = none;
}

abbrev unchanged : String → Option String
unchanged s = some s

resolve_domain_lem_example :
    IsResolved
      (canonicalize_domain unchanged "Shop.localhost.")
      none
      (shop ∷ rival ∷ [])
      (resolve_domain unchanged snapshot "Shop.localhost." none)
resolve_domain_lem_example = resolve_domain_lem unchanged snapshot "Shop.localhost." none

both :
    resolve_domain unchanged snapshot "Shop.localhost." none
    ≡ err (ambiguous "shop.localhost" ("shop" ∷ "rival" ∷ []))
unfolding resolve_domain canonicalize_domain
both = refl
