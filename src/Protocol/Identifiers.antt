-- ===== src/Protocol/Identifiers.antt =====
-- crates/cadder-ipc/src/identifiers.rs: request ids and error codes, by the bytes of their text.
pub mod Laws
use Prim.Native.Char.{code}
use Prim.Native.String as Str
use cadder.Base.{
  ℕ, suc, ◌+◌, String, Bool, true, false, not, ◌&&◌, ◌||◌, List, [], ◌∷◌, ◌++◌, Result, ok, err,
  length, any, leb, ltb, ◌==◌, nat_eq, string_eq, if◌then◌else◌, is_empty,
}
use Prim.Native.Nat.{◌/◌, ◌%◌}

-- The UTF-8 bytes of a character and of a text.
abbrev pub utf8 : ℕ → List ℕ
utf8 c =
    if ltb c 0x80
    then c ∷ []
    else if ltb c 0x800
    then (0xC0 + c / 64) ∷ (0x80 + c % 64) ∷ []
    else if ltb c 0x10000
    then (0xE0 + c / 4096) ∷ (0x80 + c / 64 % 64) ∷ (0x80 + c % 64) ∷ []
    else (0xF0 + c / 262144) ∷ (0x80 + c / 4096 % 64) ∷ (0x80 + c / 64 % 64) ∷ (0x80 + c % 64) ∷ []

unfoldable pub as_bytes : String → List ℕ
as_bytes Str.[] = []
as_bytes (Str.◌∷◌ c s) = utf8 (code c) ++ as_bytes s

abbrev pub is_ascii_lowercase : ℕ → Bool
is_ascii_lowercase b = leb b'a' b && leb b b'z'

abbrev pub is_ascii_uppercase : ℕ → Bool
is_ascii_uppercase b = leb b'A' b && leb b b'Z'

abbrev pub is_ascii_digit : ℕ → Bool
is_ascii_digit b = leb b'0' b && leb b b'9'

abbrev pub is_ascii_alphanumeric : ℕ → Bool
is_ascii_alphanumeric b = is_ascii_lowercase b || is_ascii_uppercase b || is_ascii_digit b

pub record IdentifierError : Type 0 where
  pub kind : String
  pub reason : String

abbrev pub max_error_code_bytes : ℕ
max_error_code_bytes = 64

abbrev pub max_request_id_bytes : ℕ
max_request_id_bytes = 128

-- The first and the last byte, which the source only reads of a text that is not empty.
abbrev pub first_byte : List ℕ → ℕ
first_byte [] = 0
first_byte (b ∷ bs) = b

abbrev pub last_byte : List ℕ → ℕ
last_byte [] = 0
last_byte (b ∷ []) = b
last_byte (b ∷ c ∷ bs) = last_byte (c ∷ bs)

abbrev pub is_request_byte : ℕ → Bool
is_request_byte b = is_ascii_alphanumeric b || b == b'-' || b == b'_' || b == b'.' || b == b':'

abbrev request_id_error : String → Result (Unit {0}) IdentifierError
request_id_error reason = err (record { kind = "request ID"; reason = reason })

validate_request_bytes : Bool → List ℕ → Result (Unit {0}) IdentifierError
validate_request_bytes reserved bytes =
    if is_empty bytes || ltb max_request_id_bytes (length bytes)
    then request_id_error "length must be between 1 and 128 bytes"
    else if reserved
    then request_id_error "`unknown` is reserved for uncorrelated legacy responses"
    else if not (is_ascii_alphanumeric (first_byte bytes))
        || any (λ b. not (is_request_byte b)) bytes
    then request_id_error
        "must start with an ASCII letter or digit and contain only ASCII letters, digits, '-', '_', '.', or ':'"
    else ok tt

unfoldable pub validate_request_id : String → Result (Unit {0}) IdentifierError
unfolding as_bytes validate_request_bytes
validate_request_id value = validate_request_bytes (value == "unknown") (as_bytes value)

pub record RequestId : Type 0 where
  pub text : String

abbrev owning {ℓ} : {A : Type ℓ} → A → Result (Unit {0}) IdentifierError → Result A IdentifierError
owning a (ok _) = ok a
owning a (err e) = err e

unfoldable pub parse_request_id : String → Result RequestId IdentifierError
unfolding validate_request_id
parse_request_id value = owning (record { text = value }) (validate_request_id value)

abbrev error_code_error : String → Result (Unit {0}) IdentifierError
error_code_error reason = err (record { kind = "protocol error code"; reason = reason })

abbrev pub is_code_byte : ℕ → Bool
is_code_byte b = is_ascii_lowercase b || is_ascii_digit b || b == b'_'

validate_code_bytes : List ℕ → Result (Unit {0}) IdentifierError
validate_code_bytes bytes =
    if is_empty bytes || ltb max_error_code_bytes (length bytes)
    then error_code_error "length must be between 1 and 64 bytes"
    else if not (is_ascii_lowercase (first_byte bytes))
        || not (is_ascii_alphanumeric (last_byte bytes))
    then error_code_error
        "must start with a lowercase letter and end with a lowercase letter or digit"
    else if any (λ b. not (is_code_byte b)) bytes
    then error_code_error "may contain only lowercase ASCII letters, digits, and underscores"
    else ok tt

unfoldable pub validate_error_code : String → Result (Unit {0}) IdentifierError
unfolding as_bytes validate_code_bytes
validate_error_code value = validate_code_bytes (as_bytes value)

pub record ProtocolErrorCode : Type 0 where
  pub text : String

unfoldable pub parse_error_code : String → Result ProtocolErrorCode IdentifierError
unfolding validate_error_code
parse_error_code value = owning (record { text = value }) (validate_error_code value)
