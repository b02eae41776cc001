-- ===== src/Caddy/Conflicts.antt =====
-- `detect_conflicts` of crates/cadder-daemon/src/caddy/configuration.rs: the domains that enabled
-- registrations claim more than once.
pub mod Laws
pub mod Agreement
use Prim.Native.String as Str
use cadder.Base.{
  ℕ, String, Bool, true, false, Option, none, some, List, [], ◌∷◌, ◌++◌, map, filter, if◌then◌else◌,
  unwrap_or, length, ltb,
}
use cadder.Base.Dict.{Dict, lookup, insert}
use cadder.Protocol.State.{is_enabled, RegisteredDomain, EntrypointRegistration, ConfigDiagnostic}

abbrev pub Owners : Type 0
Owners = Dict (List EntrypointRegistration)

-- `entry(..).or_default().push(..)`
unfoldable pub push_owner : String → EntrypointRegistration → Owners → Owners
unfolding lookup insert
push_owner k r m = insert k (unwrap_or (lookup k m) [] ++ r ∷ []) m

unfoldable pub add_domains : EntrypointRegistration → List RegisteredDomain → Owners → Owners
unfolding push_owner is_enabled
add_domains r [] m = m
add_domains r (d ∷ ds) m =
    add_domains r ds (if is_enabled d.activation_state then push_owner d.name.canonical r m else m)

unfoldable pub owners_from : List EntrypointRegistration → Owners → Owners
unfolding add_domains is_enabled
owners_from [] m = m
owners_from (r ∷ rs) m =
    owners_from rs
      (if is_enabled r.activation_state then add_domains r r.registered_domains m else m)

abbrev conflict_diagnostic : String → List EntrypointRegistration → ConfigDiagnostic
conflict_diagnostic domain rs = record {
  code = "domain-conflict";
  message = Str.◌++◌ "domain `" (Str.◌++◌ domain "` is registered by multiple entrypoints");
  domain_key = some domain;
  source_config_paths = map (λ (r : EntrypointRegistration). r.source_config_path.raw) rs;
}

unfoldable pub conflict_diagnostics : Owners → List ConfigDiagnostic
conflict_diagnostics [] = []
conflict_diagnostics ((domain, rs) ∷ m) =
    let rest = conflict_diagnostics m in
    if ltb 1 (length rs) then conflict_diagnostic domain rs ∷ rest else rest

unfoldable pub detect_conflicts : List EntrypointRegistration → List ConfigDiagnostic
unfolding owners_from conflict_diagnostics
detect_conflicts rs = conflict_diagnostics (owners_from rs [])
