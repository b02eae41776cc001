-- ===== src/Protocol/State.antt =====
-- crates/cadder-ipc/src/state.rs: registrations, their domains, and the state of the runtime and
-- of the configuration. Instants are numbers of ticks. A text is blank if `trim` leaves nothing of
-- it, and `is_space` has the code points of Unicode's White_Space.
use Prim.Native.Char.{code}
use Prim.Native.String as Str
use cadder.Base.{
  ℕ, String, Bool, true, false, ◌&&◌, ◌||◌, not, Option, none, List, [], Result, ok, err, ◌==◌,
  nat_eq, string_eq, leb, if◌then◌else◌,
}
use cadder.Protocol.Logs.{LogStreamIdentity}

pub data ActivationState : Type 0 where
  unknown registered activating active inactive faulted : ActivationState

unfoldable pub is_enabled : ActivationState → Bool
is_enabled registered = true
is_enabled activating = true
is_enabled active = true
is_enabled _ = false

unfoldable pub from_enabled : Bool → ActivationState
from_enabled enabled = if enabled then active else inactive

pub data RuntimeStatus : Type 0 where
  unknown not_resolved resolved running unhealthy idle : RuntimeStatus

pub data ConfigApplyStatus : Type 0 where
  unknown not_applied applied failed idle : ConfigApplyStatus

pub record SourcePath : Type 0 where
  pub raw : String
  pub canonical : Option String

pub record DomainName : Type 0 where
  pub raw : String
  pub canonical : String

pub record EntrypointInstanceIdentity : Type 0 where
  pub instance_id : String
  pub started_at_utc : ℕ
  pub shim_session_nonce : String

pub record OwnerProcessIdentity : Type 0 where
  pub process_id : ℕ
  pub process_start_time_utc : ℕ
  pub shim_session_nonce : String
  pub executable_path : Option String

pub record RegisteredDomain : Type 0 where
  pub name : DomainName
  pub activation_state : ActivationState
  pub upstream : Option String
  pub log_stream : LogStreamIdentity

pub record ShimRunMetadata : Type 0 where
  pub adapter : Option String
  pub raw_arguments : List String
  pub command_line : String

pub record EntrypointRegistration : Type 0 where
  pub registration_id : String
  pub entrypoint_instance : EntrypointInstanceIdentity
  pub source_working_directory : SourcePath
  pub source_config_path : SourcePath
  pub registered_domains : List RegisteredDomain
  pub activation_state : ActivationState
  pub owner_process : OwnerProcessIdentity
  pub log_stream : LogStreamIdentity
  pub shim_run : Option ShimRunMetadata
  pub created_at_utc : ℕ
  pub last_heartbeat_utc : ℕ

-- The nonce of the shim session that owns a registration.
abbrev pub nonce : EntrypointRegistration → String
nonce r = r.entrypoint_instance.shim_session_nonce

unfoldable pub is_space : ℕ → Bool
is_space c =
    c == 0x20
    || leb 0x9 c && leb c 0xd
    || c == 0x85
    || c == 0xa0
    || c == 0x1680
    || leb 0x2000 c && leb c 0x200a
    || c == 0x2028
    || c == 0x2029
    || c == 0x202f
    || c == 0x205f
    || c == 0x3000

unfoldable pub is_blank : String → Bool
unfolding is_space
is_blank Str.[] = true
is_blank (Str.◌∷◌ c s) = is_space (code c) && is_blank s

unfoldable pub validate_owner : EntrypointRegistration → Result (Unit {0}) String
unfolding is_blank
validate_owner r =
    if is_blank r.registration_id
    then err "registration_id is required"
    else if not (r.registration_id == r.entrypoint_instance.instance_id)
    then err "registration_id must match instance_id"
    else if is_blank r.entrypoint_instance.shim_session_nonce
        || not (r.entrypoint_instance.shim_session_nonce == r.owner_process.shim_session_nonce)
    then err "entrypoint and owner shim session nonce values must match"
    else ok tt

pub record RuntimeDiagnostic : Type 0 where
  pub code : String
  pub message : String
  pub operation : Option String

pub record RuntimeState : Type 0 where
  pub status : RuntimeStatus
  pub binary_path : Option String
  pub version : Option String
  pub process_id : Option ℕ
  pub admin_endpoint : Option String
  pub diagnostics : List RuntimeDiagnostic

abbrev pub idle_runtime : RuntimeState
idle_runtime = record {
  status = RuntimeStatus.idle;
  binary_path = none;
  version = none;
  process_id = none;
  admin_endpoint = none;
  diagnostics = [];
}

pub record ConfigDiagnostic : Type 0 where
  pub code : String
  pub message : String
  pub domain_key : Option String
  pub source_config_paths : List String

pub record ConfigState : Type 0 where
  pub status : ConfigApplyStatus
  pub last_attempted_at_utc : Option ℕ
  pub last_successful_reload_at_utc : Option ℕ
  pub effective_config_hash : Option String
  pub diagnostics : List ConfigDiagnostic

abbrev pub idle_config : ConfigState
idle_config = record {
  status = ConfigApplyStatus.idle;
  last_attempted_at_utc = none;
  last_successful_reload_at_utc = none;
  effective_config_hash = none;
  diagnostics = [];
}
