-- ===== src/Caddy/Coordinator.antt =====
-- `CaddyConfigCoordinator` of crates/cadder-daemon/src/caddy/configuration.rs: the routes and
-- diagnostics of each registration, and the state of the effective configuration. Its adapter and
-- its runtime handle are not state of it: the runtime stands in the daemon's state.
pub mod Actions
use cadder.Base.{
  ℕ, String, Bool, true, false, ◌&&◌, Option, none, some, List, [], ◌∷◌, ◌++◌, map, filter, any,
  all, flat_map, is_empty, if◌then◌else◌, ◌==◌, string_eq, Result, ok, err,
}
use cadder.Base.Dict.{Dict, lookup, insert, remove, retain}
use cadder.Caddy.Config.{active_domains, compose_config}
use cadder.Caddy.Conflicts.{detect_conflicts}
use cadder.Caddy.Externals.{Externals}
use cadder.Caddy.Json.{Value}
use cadder.Protocol.State.{
  is_enabled, EntrypointRegistration, ConfigApplyStatus, ConfigDiagnostic, ConfigState, idle_config,
}

pub record PreparedRegistration : Type 0 where
  pub registration : EntrypointRegistration
  pub routes : List Value
  pub diagnostics : List ConfigDiagnostic

pub record Coordinator : Type 0 where
  pub routes : Dict (List Value)
  pub registration_diagnostics : Dict (List ConfigDiagnostic)
  pub current : ConfigState

pub data CaddyApplyAction : Type 0 where
  unchanged : ConfigState → CaddyApplyAction
  stop : (attempted : ℕ) → CaddyApplyAction
  apply :
      (attempted : ℕ) (rendered : List ℕ) (hash : String) (source_config_paths : List String)
      → CaddyApplyAction

abbrev pub new_coordinator : Coordinator
new_coordinator = record { routes = []; registration_diagnostics = []; current = idle_config }

-- A failed step keeps the last reload and the hash of the configuration that is in effect.
abbrev pub failed_state : ℕ → List ConfigDiagnostic → ConfigState → ConfigState
failed_state attempted diagnostics s = record {
  status = ConfigApplyStatus.failed;
  last_attempted_at_utc = some attempted;
  last_successful_reload_at_utc = s.last_successful_reload_at_utc;
  effective_config_hash = s.effective_config_hash;
  diagnostics = diagnostics;
}

abbrev with_source : String → ConfigDiagnostic → ConfigDiagnostic
with_source source_path d =
    if is_empty d.source_config_paths
    then record d { source_config_paths = source_path ∷ [] }
    else d

commit_by : ℕ → String → PreparedRegistration → List ConfigDiagnostic → Coordinator → Coordinator
unfolding insert remove
commit_by now source_path p [] c = record c {
  registration_diagnostics = remove p.registration.registration_id c.registration_diagnostics;
  routes = insert p.registration.registration_id p.routes c.routes;
}
commit_by now source_path p (d ∷ ds) c =
    let diagnostics = map (with_source source_path) (d ∷ ds) in
    record {
      routes = remove p.registration.registration_id c.routes;
      registration_diagnostics =
          insert p.registration.registration_id diagnostics c.registration_diagnostics;
      current = failed_state now diagnostics c.current;
    }

unfoldable pub commit_prepared_registration :
    ℕ → String → PreparedRegistration → Coordinator → Coordinator × EntrypointRegistration
unfolding commit_by
commit_prepared_registration now source_path p c =
    (commit_by now source_path p p.diagnostics c, p.registration)

abbrev pub is_registered : List EntrypointRegistration → String → Bool
is_registered rs id = any (λ (r : EntrypointRegistration). r.registration_id == id) rs

abbrev pub enabled_only : List EntrypointRegistration → List EntrypointRegistration
enabled_only rs = filter (λ r. is_enabled r.activation_state) rs

-- `retain` on both maps.
unfoldable pub prune : List EntrypointRegistration → Coordinator → Coordinator
unfolding retain
prune rs c = record c {
  routes = retain (is_registered rs) c.routes;
  registration_diagnostics = retain (is_registered rs) c.registration_diagnostics;
}

unfoldable pub enabled_diagnostics :
    List EntrypointRegistration → Dict (List ConfigDiagnostic) → List ConfigDiagnostic
unfolding is_enabled
enabled_diagnostics rs [] = []
enabled_diagnostics rs ((id, ds) ∷ m) =
    let rest = enabled_diagnostics rs m in
    if is_registered (enabled_only rs) id then ds ++ rest else rest

serves_nothing : EntrypointRegistration → Bool
unfolding active_domains
serves_nothing r = is_empty (active_domains r)

unfoldable pub apply_action :
    Externals → ℕ → List EntrypointRegistration → Coordinator → CaddyApplyAction
unfolding compose_config
apply_action x now active c =
    let rendered = x.to_vec_pretty (compose_config x.domain_to_ascii active c.routes) in
    apply now rendered (x.sha256_hex rendered)
      (map (λ (r : EntrypointRegistration). r.source_config_path.raw) active)

decide_action :
    Externals
    → ℕ
    → List EntrypointRegistration
    → List ConfigDiagnostic
    → Coordinator
    → Coordinator × CaddyApplyAction
unfolding serves_nothing apply_action is_enabled
decide_action x now rs (d ∷ ds) c =
    let state = failed_state now (d ∷ ds) c.current in
    (record c { current = state }, unchanged state)
decide_action x now rs [] c = (
  c,
  if all serves_nothing (enabled_only rs) then stop now else apply_action x now (enabled_only rs) c,
)

unfoldable pub begin_apply :
    Externals → ℕ → List EntrypointRegistration → Coordinator → Coordinator × CaddyApplyAction
unfolding prune enabled_diagnostics decide_action detect_conflicts
begin_apply x now rs c =
    let kept = prune rs c in
    decide_action x now rs
      (enabled_diagnostics rs kept.registration_diagnostics ++ detect_conflicts rs) kept

unfoldable pub finish_idle : ℕ → Coordinator → Coordinator
finish_idle attempted c = record c {
  current = record {
    status = ConfigApplyStatus.idle;
    last_attempted_at_utc = some attempted;
    last_successful_reload_at_utc = c.current.last_successful_reload_at_utc;
    effective_config_hash = none;
    diagnostics = [];
  };
}

abbrev runtime_diagnostic : String → List String → ConfigDiagnostic
runtime_diagnostic error source_config_paths = record {
  code = "runtime-apply-failed";
  message = error;
  domain_key = none;
  source_config_paths = source_config_paths;
}

unfoldable pub finish_runtime_apply :
    ℕ → ℕ → String → List String → Result (Unit {0}) String → Coordinator → Coordinator
finish_runtime_apply now attempted hash source_config_paths (ok _) c = record c {
  current = record {
    status = ConfigApplyStatus.applied;
    last_attempted_at_utc = some attempted;
    last_successful_reload_at_utc = some now;
    effective_config_hash = some hash;
    diagnostics = [];
  };
}
finish_runtime_apply now attempted hash source_config_paths (err e) c = record c {
  current = failed_state attempted (runtime_diagnostic e source_config_paths ∷ []) c.current;
}
