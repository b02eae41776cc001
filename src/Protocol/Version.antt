-- ===== src/Protocol/Version.antt =====
-- crates/cadder-ipc/src/version.rs: the version of the protocol. Its two parts are u16 on the wire.
use Prim.Native.String as Str
use Prim.Native.Nat.{◌/◌, ◌%◌}
use cadder.Base.{
  ℕ, String, ◌≡◌, ◌↔◌, Bool, true, ◌&&◌, Result, ok, err, zero, suc, ltb, ◌==◌, nat_eq,
  if◌then◌else◌, Eq, arith,
}

pub record ProtocolVersion : Type 0 where
  pub major : ℕ
  pub minor : ℕ

pub data ProtocolVersionError : Type 0 where
  zero_major : ProtocolVersionError

unfoldable pub new_version : ℕ → ℕ → Result ProtocolVersion ProtocolVersionError
new_version major minor =
    if major == 0 then err zero_major else ok (record { major = major; minor = minor })

abbrev pub current_protocol_version : ProtocolVersion
current_protocol_version = record { major = 1; minor = 0 }

abbrev version_test : ProtocolVersion → ProtocolVersion → Bool
version_test a b = a.major == b.major && a.minor == b.minor

pub version_test_iff : (a b : ProtocolVersion) → (version_test a b ≡ true) ↔ (a ≡ b)
version_test_iff a b = ground arith

instance abbrev pub version_eq : Eq ProtocolVersion
version_eq = record { test = version_test; decides = version_test_iff }

-- A part of a version in decimals, of which a u16 has five at most.
abbrev digit : ℕ → String
digit n = Str.◌∷◌ (Str.char_at "0123456789" n) Str.[]

decimal : ℕ → ℕ → String
decimal zero n = digit (n % 10)
decimal (suc places) n =
    let earlier = decimal places (n / 10) in
    if ltb n 10 then digit n else Str.◌++◌ earlier (digit (n % 10))

unfoldable pub display_version : ProtocolVersion → String
unfolding decimal
display_version v = Str.◌++◌ (decimal 4 v.major) (Str.◌++◌ "." (decimal 4 v.minor))
