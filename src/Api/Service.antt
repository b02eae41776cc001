-- ===== src/Api/Service.antt =====
-- crates/cadder-api/src/service.rs: the operations of an operator's client, over what the client's
-- requests answer. The directory of the runtime is its text.
pub mod Stopping
use Prim.Native.String as Str
use cadder.Api.Error.{AppExit, OperatorError, new_operator_error, daemon_request, daemon_start}
use cadder.Api.View.{SelectedDomain, DomainResolveError, not_found, ambiguous, resolve_domain}
use cadder.Base.{
  ℕ, zero, suc, ◌+◌, String, Bool, true, false, not, ◌||◌, Option, none, some, List, [], ◌∷◌,
  Result, ok, err, ◌>>=◌, ◌>>◌, find, ◌==◌, nat_eq, string_eq, if◌then◌else◌,
}
use cadder.Ipc.Client.{map_err}
use cadder.Ipc.ClientError.{IpcClientError, retryable, is_daemon_unavailable, is_stale_instance}
use cadder.Protocol.Snapshot.{GuiStateSnapshot}
use cadder.Protocol.Logs.{LogStreamIdentity}
use cadder.Protocol.Messages.{BasicResponse}
use cadder.Protocol.State.{RegisteredDomain, EntrypointRegistration}

pub record DomainSelector : Type 0 where
  pub domain : String
  pub registration : Option String

abbrev snapshot_or : String → Option GuiStateSnapshot → Result GuiStateSnapshot OperatorError
unfolding new_operator_error
snapshot_or command (some s) = ok s
snapshot_or command none = err (
    new_operator_error command AppExit.ipc_failure "Cadder daemon returned no state snapshot."
      (some "Retry the command after the daemon finishes its current state transition."))

-- The answer is the snapshot of a `QueryStateResponse`.
unfoldable pub query_snapshot :
    String
    → String
    → String
    → Result (Option GuiStateSnapshot) IpcClientError
    → Result GuiStateSnapshot OperatorError
unfolding snapshot_or daemon_request
query_snapshot command paths action answer =
    map_err (daemon_request command paths action) answer >>= λ s. snapshot_or command s

unfoldable pub request_basic :
    String
    → String
    → String
    → Result BasicResponse IpcClientError
    → Result BasicResponse OperatorError
unfolding daemon_request
request_basic command paths action answer = map_err (daemon_request command paths action) answer

abbrev pub daemon_stop_attempts : ℕ
daemon_stop_attempts = 100

abbrev pub daemon_stop_confirmations : ℕ
daemon_stop_confirmations = 3

-- An error after which the old daemon may be gone.
unfoldable pub indicates_stop : IpcClientError → Bool
unfolding retryable is_daemon_unavailable is_stale_instance
indicates_stop error = retryable error || is_daemon_unavailable error || is_stale_instance error

unfoldable pub stop_timeout : String → OperatorError
unfolding new_operator_error
stop_timeout command =
    new_operator_error command AppExit.ipc_failure
      "Cadder timed out waiting for the previous daemon process to release its local endpoint."
      (some "Check the daemon diagnostics, then retry the restart once.")

-- The loop, with the attempts that are left, the number of the attempt, and the confirmations so far.
wait_rounds {ℓ} :
    {A : Type ℓ}
    → String
    → String
    → (ℕ → Result A IpcClientError)
    → ℕ
    → ℕ
    → ℕ
    → Result (Unit {0}) OperatorError
unfolding stop_timeout indicates_stop daemon_request
wait_rounds command paths answers zero k confirmed = err (stop_timeout command)
wait_rounds command paths answers (suc n) k confirmed =
    let reset = wait_rounds command paths answers n (suc k) zero in
    let again = wait_rounds command paths answers n (suc k) (suc confirmed) in
    elim (answers k) [
      | ok _ ↦ reset
      | err error ↦
          if not (indicates_stop error)
          then err (daemon_request command paths "wait for the daemon to stop" error)
          else if suc confirmed == daemon_stop_confirmations
          then ok tt
          else again
    ]

-- The answers are those of the state queries, one for each attempt.
unfoldable pub wait_for_daemon_stop {ℓ} :
    {A : Type ℓ} → String → String → (ℕ → Result A IpcClientError) → Result (Unit {0}) OperatorError
unfolding wait_rounds
wait_for_daemon_stop command paths answers =
    wait_rounds command paths answers daemon_stop_attempts zero zero

-- A stop, the wait, and the start of a daemon, whose answer is given.
unfoldable pub restart_daemon {ℓ} :
    {A : Type ℓ}
    → String
    → String
    → Result BasicResponse IpcClientError
    → (ℕ → Result A IpcClientError)
    → Result (Unit {0}) IpcClientError
    → Result (Unit {0}) OperatorError
unfolding request_basic wait_for_daemon_stop daemon_start
restart_daemon command paths stop answers start =
    request_basic command paths "stop the daemon" stop >>= λ _.
    wait_for_daemon_stop command paths answers >> map_err (daemon_start command) start

-- The refusal of a request is answered as if the entrypoint were missing.
unfoldable pub set_entrypoint_answer :
    String
    → String
    → String
    → Result BasicResponse IpcClientError
    → Result BasicResponse OperatorError
unfolding request_basic new_operator_error
set_entrypoint_answer command paths registration_id answer =
    request_basic command paths "toggle entrypoint activation" answer >>= λ response.
    if not response.accepted
    then err (
        new_operator_error command AppExit.target_not_found
          (Str.◌++◌ "Entrypoint `" (Str.◌++◌ registration_id "` was not found."))
          (some "Run `cadder projects list` to inspect registered Caddyfiles."))
    else ok response

abbrev joined : List String → String
joined [] = ""
joined (s ∷ []) = s
joined (s ∷ t ∷ rest) = Str.◌++◌ s (Str.◌++◌ ", " (joined (t ∷ rest)))

abbrev unresolved : String → DomainResolveError → OperatorError
unfolding new_operator_error
unresolved command (not_found canonical (some registration_id)) =
    new_operator_error command AppExit.target_not_found
      (Str.◌++◌ "Domain `" (
        Str.◌++◌ canonical
          (Str.◌++◌ "` was not found under entrypoint `" (Str.◌++◌ registration_id "`."))))
      (some "Run `cadder domains list` to inspect the current domain registrations.")
unresolved command (not_found canonical none) =
    new_operator_error command AppExit.target_not_found
      (Str.◌++◌ "Domain `" (Str.◌++◌ canonical "` was not found."))
      (some "Run `cadder domains list` to inspect the current domain registrations.")
unresolved command (ambiguous canonical ids) =
    new_operator_error command AppExit.conflict_or_rejected
      (Str.◌++◌ "Domain `" (
        Str.◌++◌ canonical
          (Str.◌++◌ "` matches multiple entrypoints: " (Str.◌++◌ (joined ids) "."))))
      (some "Run `cadder projects list`, then retry with the exact Caddyfile path.")

unfoldable pub select_domain :
    (String → Option String)
    → String
    → GuiStateSnapshot
    → DomainSelector
    → Result SelectedDomain OperatorError
unfolding resolve_domain unresolved
select_domain domain_to_ascii command snapshot selector =
    map_err (unresolved command)
      (resolve_domain domain_to_ascii snapshot selector.domain selector.registration)

abbrev accepted_or_rejected : String → BasicResponse → Result BasicResponse OperatorError
unfolding new_operator_error
accepted_or_rejected command response =
    if not response.accepted
    then err (
        new_operator_error command AppExit.conflict_or_rejected response.message (
          some
            "Refresh the domain list and retry the command with an explicit `--registration` filter if needed."))
    else ok response

-- `answer` is what the daemon answers for the selected domain.
unfoldable pub set_domain_enabled :
    (String → Option String)
    → String
    → String
    → Result (Option GuiStateSnapshot) IpcClientError
    → DomainSelector
    → (SelectedDomain → Result BasicResponse IpcClientError)
    → Result BasicResponse OperatorError
unfolding query_snapshot select_domain request_basic accepted_or_rejected
set_domain_enabled domain_to_ascii command paths state selector answer =
    query_snapshot command paths "query domains" state >>= λ snapshot.
    select_domain domain_to_ascii command snapshot selector >>= λ selected.
    request_basic command paths "toggle domain activation" (answer selected) >>= λ response.
    accepted_or_rejected command response
