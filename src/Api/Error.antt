-- ===== src/Api/Error.antt =====
-- crates/cadder-api/src/error.rs: what an operator is told of a failed request, and the exit code.
-- The directory of the runtime is its text.
use Prim.Native.Char.{code}
use Prim.Native.String as Str
use cadder.Base.{
  ℕ, String, Bool, true, false, ◌||◌, Option, none, some, ◌==◌, nat_eq, string_eq, if◌then◌else◌,
}
use cadder.Caddy.Domains.{trim}
use cadder.Ipc.ClientError.{
  IpcClientError, LocalIpcError, message, guidance, daemon_error, local_error, is_permission_denied,
  is_daemon_unavailable, is_protocol_incompatible,
}
use cadder.Protocol.ErrorKind.{ProtocolErrorKind}
use cadder.Protocol.Errors.{ProtocolError}

pub data AppExit : Type 0 where
  success invalid_usage daemon_unavailable daemon_start_failure target_not_found
        conflict_or_rejected permission_or_elevation unsupported_operation ipc_failure :
      AppExit

-- The error that it keeps as its source is the one that the two others are made of; the local one has
-- the fields of `OperatorLocalIpcError`, and its own source besides.
pub record OperatorError : Type 0 where
  pub kind : AppExit
  pub message : String
  pub guidance : Option String
  pub daemon_error : Option ProtocolError
  pub local_error : Option LocalIpcError
  pub command : String

unfoldable pub new_operator_error : String → AppExit → String → Option String → OperatorError
new_operator_error command kind message guidance = record {
  kind = kind;
  message = message;
  guidance = guidance;
  daemon_error = none;
  local_error = none;
  command = command;
}

abbrev is_stop : ℕ → Bool
is_stop c = c == b'.' || c == b'!' || c == b'?'

abbrev ends_with_stop : String → Bool
ends_with_stop Str.[] = false
ends_with_stop (Str.◌∷◌ c Str.[]) = is_stop (code c)
ends_with_stop (Str.◌∷◌ c (Str.◌∷◌ d s)) = ends_with_stop (Str.◌∷◌ d s)

unfoldable pub sentence : String → String
unfolding trim
sentence message =
    let trimmed = trim message in if ends_with_stop trimmed then trimmed else Str.◌++◌ trimmed "."

abbrev exit_of_kind : Option ProtocolError → AppExit
exit_of_kind none = AppExit.ipc_failure
exit_of_kind (some e) = elim e.kind [
  | ProtocolErrorKind.conflict ↦ AppExit.conflict_or_rejected
  | ProtocolErrorKind.incompatible_protocol_version ↦ AppExit.unsupported_operation
  | ProtocolErrorKind.unsupported_operation ↦ AppExit.unsupported_operation
  | _ ↦ AppExit.ipc_failure
]

unfoldable pub app_exit_for_ipc : IpcClientError → AppExit
unfolding is_permission_denied is_daemon_unavailable is_protocol_incompatible daemon_error
app_exit_for_ipc error =
    if is_permission_denied error
    then AppExit.permission_or_elevation
    else if is_daemon_unavailable error
    then AppExit.daemon_unavailable
    else if is_protocol_incompatible error
    then AppExit.unsupported_operation
    else exit_of_kind (daemon_error error)

abbrev start_guidance : String
start_guidance =
    "Run `cadder tui --start-daemon` to start cadderd and open the operator, then retry."

abbrev with_ipc_error : IpcClientError → OperatorError → OperatorError
unfolding daemon_error local_error
with_ipc_error error e = record e {
  daemon_error = daemon_error error;
  local_error = local_error error;
}

abbrev or_else {ℓ} : {A : Type ℓ} → Option A → Option A → Option A
or_else (some a) b = some a
or_else none b = b

abbrev request_guidance : String → AppExit → Option String → Option String
request_guidance paths AppExit.daemon_unavailable given = some start_guidance
request_guidance paths AppExit.ipc_failure given = or_else given (
    some (
      Str.◌++◌ "Inspect cadderd diagnostics for runtime `"
        (Str.◌++◌ paths "`, correct the reported protocol or transport error, then retry.")))
request_guidance paths _ given = given

abbrev request_message : String → String → AppExit → String → String
unfolding sentence
request_message paths action AppExit.daemon_unavailable given =
    Str.◌++◌ "Cadder daemon is unavailable for runtime `" (Str.◌++◌ paths "`.")
request_message paths action _ given =
    Str.◌++◌ "Could not " (Str.◌++◌ action (Str.◌++◌ ": " (sentence given)))

unfoldable pub daemon_request : String → String → String → IpcClientError → OperatorError
unfolding new_operator_error app_exit_for_ipc with_ipc_error request_message message guidance
daemon_request command paths action error =
    let kind = app_exit_for_ipc error in
    with_ipc_error error (
      new_operator_error command kind (request_message paths action kind (message error))
        (request_guidance paths kind (guidance error)))

abbrev start_help : Bool → String
start_help true =
    "Use the account that owns this Cadder runtime and verify access to the daemon executable and runtime directory."
start_help false = "Fix the Cadder startup problem, then retry `cadder daemon start`."

abbrev start_exit : Bool → AppExit
start_exit true = AppExit.permission_or_elevation
start_exit false = AppExit.daemon_start_failure

unfoldable pub daemon_start : String → IpcClientError → OperatorError
unfolding new_operator_error with_ipc_error sentence message guidance is_permission_denied
daemon_start command error =
    let denied = is_permission_denied error in
    with_ipc_error error (
      new_operator_error command (start_exit denied)
        (Str.◌++◌ "Could not start cadderd: " (sentence (message error)))
        (or_else (guidance error) (some (start_help denied))))
