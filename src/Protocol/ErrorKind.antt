-- ===== src/Protocol/ErrorKind.antt =====
-- The kinds of errors of crates/cadder-ipc/src/errors.rs, and their codes.
use cadder.Base.{String, ◌≡◌, refl, ok}
use cadder.Protocol.Identifiers.{parse_error_code}

pub data ProtocolErrorKind : Type 0 where
  incompatible_protocol_version unsupported_operation payload_decode_failed access_denied
        invalid_input conflict configuration caddy_runtime storage busy frame timeout
        protocol_violation shutting_down stale_instance internal :
      ProtocolErrorKind

unfoldable pub default_code : ProtocolErrorKind → String
default_code ProtocolErrorKind.incompatible_protocol_version = "incompatible_protocol"
default_code ProtocolErrorKind.unsupported_operation = "unsupported_operation"
default_code ProtocolErrorKind.payload_decode_failed = "invalid_payload"
default_code ProtocolErrorKind.access_denied = "permission_denied"
default_code ProtocolErrorKind.invalid_input = "invalid_input"
default_code ProtocolErrorKind.conflict = "conflict"
default_code ProtocolErrorKind.configuration = "configuration"
default_code ProtocolErrorKind.caddy_runtime = "caddy_runtime"
default_code ProtocolErrorKind.storage = "storage"
default_code ProtocolErrorKind.busy = "busy"
default_code ProtocolErrorKind.frame = "frame"
default_code ProtocolErrorKind.timeout = "timeout"
default_code ProtocolErrorKind.protocol_violation = "protocol_violation"
default_code ProtocolErrorKind.shutting_down = "shutting_down"
default_code ProtocolErrorKind.stale_instance = "stale_instance"
default_code ProtocolErrorKind.internal = "internal"

-- The code of every kind of error is one that parses, so that building an error never panics.
pub default_code-parses :
    (k : ProtocolErrorKind)
    → parse_error_code (default_code k) ≡ ok (record { text = default_code k })
unfolding parse_error_code default_code
default_code-parses ProtocolErrorKind.incompatible_protocol_version = refl
default_code-parses ProtocolErrorKind.unsupported_operation = refl
default_code-parses ProtocolErrorKind.payload_decode_failed = refl
default_code-parses ProtocolErrorKind.access_denied = refl
default_code-parses ProtocolErrorKind.invalid_input = refl
default_code-parses ProtocolErrorKind.conflict = refl
default_code-parses ProtocolErrorKind.configuration = refl
default_code-parses ProtocolErrorKind.caddy_runtime = refl
default_code-parses ProtocolErrorKind.storage = refl
default_code-parses ProtocolErrorKind.busy = refl
default_code-parses ProtocolErrorKind.frame = refl
default_code-parses ProtocolErrorKind.timeout = refl
default_code-parses ProtocolErrorKind.protocol_violation = refl
default_code-parses ProtocolErrorKind.shutting_down = refl
default_code-parses ProtocolErrorKind.stale_instance = refl
default_code-parses ProtocolErrorKind.internal = refl
