-- ===== src/Shim/CommandPolicy.antt =====
-- Which commands of Caddy the shim runs: crates/cadder-shim/src/command_policy.rs and the dispatch
-- of crates/cadder-shim/src/main.rs.
use cadder.Base.{
  String, Bool, true, false, Option, none, some, Result, ok, err, List, [], ◌∷◌, any, find, ◌||◌,
  ◌&&◌, not, string_eq, ◌==◌, if◌then◌else◌,
}

pub data ShimCommandPolicyKind : Type 0 where
  managed : ShimCommandPolicyKind
  read_only_inspection : ShimCommandPolicyKind
  explicit_passthrough : ShimCommandPolicyKind
  unsupported : ShimCommandPolicyKind

pub record ShimCommandPolicyEntry : Type 0 where
  pub command : String
  pub kind : ShimCommandPolicyKind
  pub rationale : String

pub record ClassifiedShimCommand : Type 0 where
  pub command : String
  pub kind : ShimCommandPolicyKind
  pub rationale : String

abbrev policy_entry : String → ShimCommandPolicyKind → String → ShimCommandPolicyEntry
policy_entry command kind rationale = record {
  command = command;
  kind = kind;
  rationale = rationale;
}

abbrev pub shim_command_policy_table : List ShimCommandPolicyEntry
shim_command_policy_table =
    policy_entry "run" managed
      "Registers the project definition with cadderd and keeps Cadder as runtime owner."
    ∷ policy_entry "adapt" read_only_inspection
        "Reads a Caddy config and prints adapted JSON without mutating runtime state."
    ∷ policy_entry "build-info" read_only_inspection "Reports real Caddy build metadata."
    ∷ policy_entry "environ" read_only_inspection "Reports real Caddy environment information."
    ∷ policy_entry "help" read_only_inspection "Displays command help."
    ∷ policy_entry "list-modules" read_only_inspection "Reports installed real Caddy modules."
    ∷ policy_entry "validate" read_only_inspection
        "Validates config input without applying it to Cadder-managed runtime state."
    ∷ policy_entry "version" read_only_inspection "Reports real Caddy version metadata."
    ∷ policy_entry "completion" explicit_passthrough
        "Generates shell completion output without touching Cadder-managed state."
    ∷ policy_entry "file-server" explicit_passthrough
        "Starts an unmanaged one-shot real Caddy file server by explicit command."
    ∷ policy_entry "fmt" explicit_passthrough
        "Formats user-provided config files without touching Cadder-managed runtime state."
    ∷ policy_entry "manpage" explicit_passthrough
        "Generates manual page output without touching Cadder-managed state."
    ∷ policy_entry "reverse-proxy" explicit_passthrough
        "Starts an unmanaged one-shot real Caddy reverse proxy by explicit command."
    ∷ policy_entry "add-package" unsupported
        "Mutates the real Caddy binary/module set outside Cadder release ownership."
    ∷ policy_entry "reload" unsupported
        "Mutates real Caddy runtime state outside Cadder's generated config model."
    ∷ policy_entry "remove-package" unsupported
        "Mutates the real Caddy binary/module set outside Cadder release ownership."
    ∷ policy_entry "start" unsupported
        "Starts an unmanaged real Caddy runtime that can drift from cadderd ownership."
    ∷ policy_entry "stop" unsupported
        "Stops real Caddy outside Cadder's runtime ownership boundary."
    ∷ policy_entry "trust" unsupported
        "Mutates local trust stores outside the current Cadder shim contract."
    ∷ policy_entry "untrust" unsupported
        "Mutates local trust stores outside the current Cadder shim contract."
    ∷ policy_entry "upgrade" unsupported
        "Mutates the real Caddy binary outside Cadder release ownership."
    ∷ []

unfoldable pub normalized_caddy_command : List String → String
normalized_caddy_command [] = "help"
normalized_caddy_command (command ∷ args) =
    if command == "--help" || command == "-h" || command == "help"
    then "help"
    else if command == "--version" || command == "-v" || command == "version"
    then "version"
    else command

abbrev pub classified_by : String → Option ShimCommandPolicyEntry → ClassifiedShimCommand
classified_by command (some entry) = record {
  command = command;
  kind = entry.kind;
  rationale = entry.rationale;
}
classified_by command none = record {
  command = command;
  kind = unsupported;
  rationale = "No explicit Cadder shim policy entry exists for this Caddy command.";
}

unfoldable pub classify_caddy_command : List String → ClassifiedShimCommand
unfolding normalized_caddy_command
classify_caddy_command args =
    let command = normalized_caddy_command args in
    classified_by command (find (λ entry. entry.command == command) shim_command_policy_table)

pub data CaddyBackendMode : Type 0 where
  real : CaddyBackendMode
  mock : CaddyBackendMode

-- `test_runtime_dir` is left out, which only the tests set.
pub record ShimArgs : Type 0 where
  pub rejected_real_caddy_selector : Option String
  pub caddy_backend : Option CaddyBackendMode
  pub caddy_args : List String

-- What the notice meets: whether the runtime's paths resolve, and whether `CadderSession::connect`
-- gets a session there.
pub record Probe : Type 0 where
  pub paths_resolve : Bool
  pub connects : Bool

-- What `main` ends in. `delegate_to_real_caddy` resolves the executable, which may fail, and runs it.
pub data Outcome : Type 0 where
  shim_info : Outcome
  rejected_selector : Outcome
  invalid_backend : String → Outcome
  run_managed : Outcome
  reject_unsupported_caddy_command : ClassifiedShimCommand → Outcome
  run_mock_caddy_command : Outcome
  -- `true` after `write_read_only_real_caddy_inspection_notice`.
  delegate_to_real_caddy : Bool → Outcome

abbrev is_inspection : ShimCommandPolicyKind → Bool
is_inspection read_only_inspection = true
is_inspection _ = false

abbrev delegated : CaddyBackendMode → ShimCommandPolicyKind → Outcome
delegated mock k = run_mock_caddy_command
delegated real k = delegate_to_real_caddy (is_inspection k)

abbrev pub by_policy : CaddyBackendMode → ClassifiedShimCommand → ShimCommandPolicyKind → Outcome
by_policy b c managed = run_managed
by_policy b c unsupported = reject_unsupported_caddy_command c
by_policy b c read_only_inspection = delegated b read_only_inspection
by_policy b c explicit_passthrough = delegated b explicit_passthrough

-- The backend of the arguments, or else what `CaddyBackendMode::from_env` returns.
abbrev pub chosen_backend :
    Option CaddyBackendMode → Result CaddyBackendMode String → Result CaddyBackendMode String
chosen_backend (some b) env = ok b
chosen_backend none env = env

unfoldable pub on_backend : List String → Result CaddyBackendMode String → Outcome
unfolding classify_caddy_command
on_backend args (err e) = invalid_backend e
on_backend args (ok b) = let policy = classify_caddy_command args in by_policy b policy policy.kind

unfoldable pub on_selector : ShimArgs → Result CaddyBackendMode String → Option String → Outcome
unfolding on_backend
on_selector a env (some s) = rejected_selector
on_selector a env none = on_backend a.caddy_args (chosen_backend a.caddy_backend env)

unfoldable pub main : ShimArgs → Result CaddyBackendMode String → Outcome
unfolding on_selector on_backend
main a env =
    if any (λ arg. arg == "--cadder-shim-info") a.caddy_args
    then shim_info
    else on_selector a env a.rejected_real_caddy_selector

-- `write_read_only_real_caddy_inspection_notice`: whether it prints.
unfoldable pub write_read_only_real_caddy_inspection_notice : Probe → Bool
write_read_only_real_caddy_inspection_notice p = p.paths_resolve && not p.connects

-- Whether the notice is printed before the outcome.
abbrev pub prints_notice : Probe → Outcome → Bool
unfolding write_read_only_real_caddy_inspection_notice
prints_notice p (delegate_to_real_caddy true) = write_read_only_real_caddy_inspection_notice p
prints_notice p _ = false
