-- ===== src/Protocol/Errors.antt =====
-- crates/cadder-ipc/src/errors.rs: the errors that a response carries, with their stable codes.
use cadder.Base.{String, ◌≡◌, refl, Bool, true, false, Option, none, some, ok}
use cadder.Protocol.ErrorKind.{ProtocolErrorKind}
use cadder.Protocol.Identifiers.{RequestId, ProtocolErrorCode, parse_request_id}
use cadder.Protocol.Version.{ProtocolVersion, display_version}
use Prim.Native.String as Str

pub record ProtocolError : Type 0 where
  pub kind : ProtocolErrorKind
  pub code : ProtocolErrorCode
  pub message : String
  pub guidance : Option String
  pub retryable : Bool
  pub request_id : Option RequestId
  pub denied_operation : Option String

unfoldable pub new_error :
    ProtocolErrorKind → ProtocolErrorCode → String → Option String → Bool → ProtocolError
new_error kind code message guidance retryable = record {
  kind = kind;
  code = code;
  message = message;
  guidance = guidance;
  retryable = retryable;
  request_id = none;
  denied_operation = none;
}

-- `ProtocolErrorCode::known`, whose texts are checked in debug builds.
abbrev pub known : String → ProtocolErrorCode
known value = record { text = value }

abbrev quoted : String → String
quoted s = Str.◌++◌ "`" (Str.◌++◌ s "`")

unfoldable pub incompatible_protocol_version_pair :
    ProtocolVersion → ProtocolVersion → ProtocolError
unfolding new_error display_version
incompatible_protocol_version_pair offered supported =
    new_error ProtocolErrorKind.incompatible_protocol_version (known "incompatible_protocol")
      (Str.◌++◌ "Cadder protocol " (
        Str.◌++◌ (display_version offered) (
          Str.◌++◌ " does not match the required protocol "
            (Str.◌++◌ (display_version supported) "."))))
      (some "Use version-matched Cadder binaries from one portable archive.") false

unfoldable pub payload_decode_failed : String → ProtocolError
unfolding new_error
payload_decode_failed error =
    new_error ProtocolErrorKind.payload_decode_failed (known "invalid_payload")
      (Str.◌++◌ "Cadder could not decode the request payload: " error)
      (some "Send the payload defined for this exact Cadder protocol version.") false

abbrev location : Option String → String
location none = ""
location (some path) = Str.◌++◌ " at " (quoted path)

unfoldable pub incompatible_payload_contract : Option String → ProtocolError
unfolding new_error
incompatible_payload_contract path =
    new_error ProtocolErrorKind.incompatible_protocol_version (known "incompatible_payload")
      (Str.◌++◌ "The request uses an unsupported payload contract" (Str.◌++◌ (location path) "."))
      (some "Use version-matched Cadder binaries from one portable archive.") false

unfoldable pub decoder_contract_mismatch : String → String → ProtocolError
unfolding new_error
decoder_contract_mismatch expected actual =
    new_error ProtocolErrorKind.protocol_violation (known "decoder_contract_mismatch")
      (Str.◌++◌ "The " (
        Str.◌++◌ (quoted actual)
          (Str.◌++◌ " decoder cannot handle the " (Str.◌++◌ (quoted expected) " operation."))))
      (some "Report this Cadder dispatcher defect.") false

unfoldable pub unsupported_operation : String → ProtocolError
unfolding new_error
unsupported_operation operation =
    new_error ProtocolErrorKind.unsupported_operation (known "unsupported_operation")
      (Str.◌++◌ "Cadder does not support the " (Str.◌++◌ (quoted operation) " operation."))
      (some "Use one of the eight operations supported by this Cadder version.") false

unfoldable pub access_denied : String → String → Option String → ProtocolError
unfolding new_error
access_denied operation message guidance =
    record (new_error ProtocolErrorKind.access_denied (known "permission_denied") message guidance
      false) { denied_operation = some operation }

unfoldable pub stale_instance : ProtocolError
unfolding new_error
stale_instance =
    new_error ProtocolErrorKind.stale_instance (known "stale_instance")
      "The local endpoint belongs to a different Cadder runtime instance."
      (some "Reconnect through the current local endpoint.") true

abbrev pub with_request_id : RequestId → ProtocolError → ProtocolError
with_request_id id e = record e { request_id = some id }

pub record ProtocolErrorResponse : Type 0 where
  pub request_id : String
  pub error : ProtocolError

abbrev pub uncorrelated : RequestId
uncorrelated = record { text = "uncorrelated-error" }

abbrev pub correlation : Option RequestId → RequestId
correlation none = uncorrelated
correlation (some id) = id

unfoldable pub rejected : Option RequestId → ProtocolError → ProtocolErrorResponse
rejected id e = record {
  request_id = (correlation id).text;
  error = with_request_id (correlation id) e;
}

-- The static id is one that parses.
uncorrelated-parses : parse_request_id "uncorrelated-error" ≡ ok uncorrelated
unfolding parse_request_id
uncorrelated-parses = refl
