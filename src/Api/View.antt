-- ===== src/Api/View.antt =====
-- crates/cadder-api/src/view.rs: views of a snapshot of the daemon's state, and the registration that
-- a domain names.
pub mod Counts
pub mod Resolution
use cadder.Base.{
  ℕ, zero, suc, ◌+◌, String, Bool, true, false, not, Option, none, some, List, [], ◌∷◌, ◌++◌, map,
  filter, any, length, flat_map, Result, ok, err, ◌==◌, string_eq, if◌then◌else◌,
}
use cadder.Caddy.Domains.{canonicalize_domain}
use cadder.Protocol.Logs.{LogStreamIdentity}
use cadder.Protocol.Snapshot.{GuiStateSnapshot}
use cadder.Protocol.State.{
  ActivationState, is_enabled, RegisteredDomain, EntrypointRegistration, ShimRunMetadata,
}

pub record CountsView : Type 0 where
  pub entrypoints : ℕ
  pub domains : ℕ
  pub active_domains : ℕ

pub record EntrypointView : Type 0 where
  pub registration_id : String
  pub activation_state : ActivationState
  pub working_directory : String
  pub config_path : String
  pub started_at_utc : ℕ
  pub last_heartbeat_utc : ℕ
  pub process_id : ℕ
  pub executable_path : Option String
  pub domain_count : ℕ
  pub active_domain_count : ℕ
  pub adapter : Option String
  pub command_line : Option String

abbrev pub enabled_domains : List RegisteredDomain → List RegisteredDomain
unfolding is_enabled
enabled_domains domains = filter (λ (d : RegisteredDomain). is_enabled d.activation_state) domains

abbrev run_adapter : Option ShimRunMetadata → Option String
run_adapter none = none
run_adapter (some run) = run.adapter

abbrev run_command_line : Option ShimRunMetadata → Option String
run_command_line none = none
run_command_line (some run) = some run.command_line

unfoldable pub entrypoint_view : EntrypointRegistration → EntrypointView
unfolding enabled_domains
entrypoint_view r = record {
  registration_id = r.registration_id;
  activation_state = r.activation_state;
  working_directory = r.source_working_directory.raw;
  config_path = r.source_config_path.raw;
  started_at_utc = r.entrypoint_instance.started_at_utc;
  last_heartbeat_utc = r.last_heartbeat_utc;
  process_id = r.owner_process.process_id;
  executable_path = r.owner_process.executable_path;
  domain_count = length r.registered_domains;
  active_domain_count = length (enabled_domains r.registered_domains);
  adapter = run_adapter r.shim_run;
  command_line = run_command_line r.shim_run;
}

pub record EntrypointListView : Type 0 where
  pub captured_at_utc : ℕ
  pub entrypoints : List EntrypointView

unfoldable pub entrypoints_view : GuiStateSnapshot → EntrypointListView
unfolding entrypoint_view
entrypoints_view s = record {
  captured_at_utc = s.captured_at_utc;
  entrypoints = map entrypoint_view s.registrations;
}

pub record DomainView : Type 0 where
  pub registration_id : String
  pub domain : String
  pub canonical_domain : String
  pub upstream : Option String
  pub activation_state : ActivationState
  pub entrypoint_activation_state : ActivationState
  pub working_directory : String
  pub config_path : String
  pub log_stream : LogStreamIdentity

pub record DomainListView : Type 0 where
  pub captured_at_utc : ℕ
  pub domains : List DomainView

abbrev domain_view : EntrypointRegistration → RegisteredDomain → DomainView
domain_view r d = record {
  registration_id = r.registration_id;
  domain = d.name.raw;
  canonical_domain = d.name.canonical;
  upstream = d.upstream;
  activation_state = d.activation_state;
  entrypoint_activation_state = r.activation_state;
  working_directory = r.source_working_directory.raw;
  config_path = r.source_config_path.raw;
  log_stream = d.log_stream;
}

-- `is_none_or`.
abbrev pub passes : Option String → EntrypointRegistration → Bool
passes none r = true
passes (some id) r = r.registration_id == id

abbrev domains_of : EntrypointRegistration → List DomainView
domains_of r = map (domain_view r) r.registered_domains

unfoldable pub domains_view : GuiStateSnapshot → Option String → DomainListView
domains_view s registration_filter = record {
  captured_at_utc = s.captured_at_utc;
  domains = flat_map domains_of (filter (passes registration_filter) s.registrations);
}

abbrev pub sum : List ℕ → ℕ
sum [] = zero
sum (n ∷ ns) = n + sum ns

unfoldable pub counts : GuiStateSnapshot → CountsView
unfolding enabled_domains
counts s = record {
  entrypoints = length s.registrations;
  domains = sum (map (λ (r : EntrypointRegistration). length r.registered_domains) s.registrations);
  active_domains = length (
      enabled_domains
        (flat_map (λ (r : EntrypointRegistration). r.registered_domains) s.registrations));
}

pub record SelectedDomain : Type 0 where
  pub registration_id : String
  pub canonical_domain : String

pub data DomainResolveError : Type 0 where
  not_found :
      (canonical_domain : String) → (requested_registration : Option String) → DomainResolveError
  ambiguous : (canonical_domain : String) → (matches : List String) → DomainResolveError

-- The test of a registration's domains.
abbrev pub has_name : String → EntrypointRegistration → Bool
has_name canonical r =
    any (λ (d : RegisteredDomain). d.name.canonical == canonical) r.registered_domains

-- The loop: a registration of another id is passed over.
abbrev matching : String → Option String → List EntrypointRegistration → List SelectedDomain
matching canonical registration [] = []
matching canonical registration (r ∷ rs) =
    let rest = matching canonical registration rs in
    if not (passes registration r)
    then rest
    else if has_name canonical r
    then record { registration_id = r.registration_id; canonical_domain = canonical } ∷ rest
    else rest

abbrev selected :
    String → Option String → List SelectedDomain → Result SelectedDomain DomainResolveError
selected canonical registration [] = err (not_found canonical registration)
selected canonical registration (s ∷ []) = ok s
selected canonical registration (s ∷ t ∷ more) =
    err (ambiguous canonical (map (λ (d : SelectedDomain). d.registration_id) (s ∷ t ∷ more)))

-- `domain_to_ascii` is that of the idna package.
unfoldable pub resolve_domain :
    (String → Option String)
    → GuiStateSnapshot
    → String
    → Option String
    → Result SelectedDomain DomainResolveError
unfolding canonicalize_domain
resolve_domain domain_to_ascii s domain registration =
    let canonical = canonicalize_domain domain_to_ascii domain in
    selected canonical registration (matching canonical registration s.registrations)
