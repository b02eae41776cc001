-- ===== src/Daemon/Responses.antt =====
-- The responses of the mutations in crates/cadder-daemon/src/state/registrations.rs. An
-- `anyhow::Error` is its text.
use Prim.Native.String as Str
use cadder.Base.{String, true, false, none, Result, ok, err}
use cadder.Daemon.Transaction.{RegistrationTransactionFailure, fenced, runtime, storage}
use cadder.Fence.{CommitRejection}
use cadder.Protocol.Messages.{RegisterEntrypointResponse, BasicResponse}

-- `Display` of a rejection.
rejection_text : CommitRejection → String
rejection_text CommitRejection.revoked = "the operation's commit permit was revoked"
rejection_text CommitRejection.stale_epoch =
    "the operation belongs to an expired daemon lifecycle epoch"
rejection_text CommitRejection.draining = "the daemon is draining and does not accept mutations"

unfoldable pub mutation_admission_message : CommitRejection → String
unfolding rejection_text
mutation_admission_message e =
    Str.◌++◌ "Daemon mutation rejected: " (Str.◌++◌ (rejection_text e) ".")

abbrev pub refused : String → BasicResponse
refused message = record { request_id = ""; accepted = false; message = message }

abbrev pub accepted : String → BasicResponse
accepted message = record { request_id = ""; accepted = true; message = message }

unfoldable pub mutation_rejected : CommitRejection → BasicResponse
unfolding mutation_admission_message
mutation_rejected e = refused (mutation_admission_message e)

abbrev pub register_refused : String → RegisterEntrypointResponse
register_refused message = record {
  request_id = "";
  accepted = false;
  message = message;
  registration_id = none;
}

abbrev pub registration_owner_conflict : RegisterEntrypointResponse
registration_owner_conflict =
    register_refused "Entrypoint registration ID is already owned by another shim session."

unfoldable pub registration_runtime_rejected : String → RegisterEntrypointResponse
registration_runtime_rejected e =
    register_refused (Str.◌++◌ "Entrypoint registration could not update Caddy: " (Str.◌++◌ e "."))

unfoldable pub registration_storage_rejected : String → RegisterEntrypointResponse
registration_storage_rejected e = register_refused (
    Str.◌++◌ "Entrypoint registration was not committed because durable storage failed: " (
      Str.◌++◌ e
        ". Cadder kept the previous state. Resolve the reported storage error, then retry."))

unfoldable pub registration_mutation_runtime_rejected : String → String → BasicResponse
registration_mutation_runtime_rejected operation e = refused (
    Str.◌++◌ "Could not " (
      Str.◌++◌ operation
        (Str.◌++◌ " because Caddy rejected the runtime update: " (Str.◌++◌ e "."))))

unfoldable pub registration_mutation_storage_rejected : String → String → BasicResponse
registration_mutation_storage_rejected operation e = refused (
    Str.◌++◌ "Cadder could not " (
      Str.◌++◌ operation (
        Str.◌++◌ " because durable storage failed: " (
          Str.◌++◌ e
            ". Cadder restored the previous runtime state. Resolve the reported storage error, then retry."))))

-- What the end of a transaction answers.
abbrev pub answer {ℓ} :
    {A : Type ℓ}
    → A
    → (String → A)
    → (String → A)
    → Result (Unit {0}) RegistrationTransactionFailure
    → Result A CommitRejection
answer success on_runtime on_storage (ok _) = ok success
answer success on_runtime on_storage (err (fenced e)) = err e
answer success on_runtime on_storage (err (runtime e)) = ok (on_runtime e)
answer success on_runtime on_storage (err (storage e)) = ok (on_storage e)
