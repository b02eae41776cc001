-- ===== src/Ipc/Access.antt =====
-- The policy of crates/cadder-daemon/src/ipc_security.rs, and what ipc/authorization.rs asks of it.
-- What the operating system says of the identity of a peer is an argument.
use Prim.Native.String as Str
use cadder.Base.{
  ℕ, String, ◌≡◌, ◌∙◌, refl, Bool, true, false, Option, none, some, ◌==◌, nat_eq, string_eq,
  if◌then◌else◌, ==→eq, arith, ap, Eq,
}
use cadder.Protocol.Errors.{ProtocolErrorResponse, access_denied, rejected}
use cadder.Protocol.Operations.{
  OperationAccess, OperationDefinition, RawRequestEnvelope, lookup_operation,
}

pub data PrivilegeStatus : Type 0 where
  normal_user elevated unknown : PrivilegeStatus

-- Each platform has one of them.
pub data IpcOsIdentity : Type 0 where
  unix_uid : ℕ → IpcOsIdentity
  windows_sid : String → IpcOsIdentity

pub record IpcPrincipal : Type 0 where
  pub identity : Option IpcOsIdentity
  pub privilege_status : PrivilegeStatus

abbrev identity_test : IpcOsIdentity → IpcOsIdentity → Bool
identity_test (IpcOsIdentity.unix_uid a) (IpcOsIdentity.unix_uid b) = a == b
identity_test (IpcOsIdentity.windows_sid a) (IpcOsIdentity.windows_sid b) = a == b
identity_test _ _ = false

abbrev same_identities : Option IpcOsIdentity → Option IpcOsIdentity → Bool
same_identities (some owner) (some peer) = identity_test owner peer
same_identities _ _ = false

unfoldable pub is_same_identity : IpcPrincipal → IpcPrincipal → Bool
is_same_identity owner peer = same_identities owner.identity peer.identity

pub data IpcOperationKind : Type 0 where
  read_only state_changing : IpcOperationKind

pub record IpcOperation : Type 0 where
  pub name : String
  pub kind : IpcOperationKind

pub record IpcAccessDecision : Type 0 where
  pub allowed : Bool
  pub reason_code : String
  pub message : String
  pub guidance : Option String

abbrev allowed_for : String → IpcAccessDecision
allowed_for reason_code = record {
  allowed = true;
  reason_code = reason_code;
  message = "Cadder IPC operation is allowed by the local security policy.";
  guidance = none;
}

abbrev denied_for : String → String → String → IpcAccessDecision
denied_for reason_code message guidance = record {
  allowed = false;
  reason_code = reason_code;
  message = message;
  guidance = some guidance;
}

unfoldable pub authenticate_peer : IpcPrincipal → IpcPrincipal → IpcAccessDecision
unfolding is_same_identity
authenticate_peer owner peer =
    if is_same_identity owner peer
    then allowed_for "same-runtime-owner-identity"
    else denied_for "principal-outside-runtime-owner"
        "Cadder denied a local connection whose operating-system identity does not match the runtime owner."
        "Use the same local account that owns the Cadder runtime, or start a separate runtime profile for this account."

unfoldable pub evaluate : IpcPrincipal → IpcPrincipal → IpcOperation → IpcAccessDecision
unfolding authenticate_peer
evaluate owner peer operation =
    if (authenticate_peer owner peer).allowed
    then allowed_for "same-runtime-owner-identity"
    else denied_for "principal-outside-runtime-owner"
        (Str.◌++◌ "Cadder IPC operation `" (
          Str.◌++◌ operation.name
            "` is not allowed for principals outside the runtime owner account."))
        "Use the same local account that owns the Cadder runtime, or start a separate runtime profile for this account."

abbrev kind_of : OperationAccess → IpcOperationKind
kind_of OperationAccess.mutation = IpcOperationKind.state_changing
kind_of OperationAccess.read_only = IpcOperationKind.read_only

abbrev kind_by : Option OperationDefinition → IpcOperationKind
kind_by (some d) = kind_of d.access
kind_by none = IpcOperationKind.read_only

unfoldable pub operation_for_message_type : String → IpcOperation
unfolding lookup_operation
operation_for_message_type message_type = record {
  name = message_type;
  kind = kind_by (lookup_operation message_type);
}

-- The log writes the kind as `{:?}` does.
abbrev kind_text : IpcOperationKind → String
kind_text IpcOperationKind.read_only = "ReadOnly"
kind_text IpcOperationKind.state_changing = "StateChanging"

unfoldable pub denial_line : IpcOperation → IpcAccessDecision → String
denial_line operation decision = Str.◌++◌ "Denied Cadder IPC " (
    Str.◌++◌ (kind_text operation.kind) (
      Str.◌++◌ " operation `"
        (Str.◌++◌ operation.name (Str.◌++◌ "` by local security policy: " decision.reason_code))))

-- `authorize_or_reject`: none if the request may go on, or else the log line and the rejection.
unfoldable pub authorize_or_reject :
    IpcPrincipal → IpcPrincipal → RawRequestEnvelope → Option (String × ProtocolErrorResponse)
unfolding evaluate operation_for_message_type denial_line access_denied rejected
authorize_or_reject owner peer envelope =
    let operation = operation_for_message_type envelope.operation in
    let decision = evaluate owner peer operation in
    if decision.allowed
    then none
    else some (
      denial_line operation decision,
      rejected (some envelope.request_id)
          (access_denied operation.name decision.message decision.guidance),
    )

-- Both identities are known, and are the same.
pub record IsSameAccount (owner peer : IpcPrincipal) : Type 0 where
  pub identity : IpcOsIdentity
  pub of_owner : owner.identity ≡ some identity
  pub of_peer : peer.identity ≡ some identity

identity_test_lem : (a b : IpcOsIdentity) → identity_test a b ≡ true → b ≡ a
identity_test_lem (IpcOsIdentity.unix_uid a) (IpcOsIdentity.unix_uid b) h =
    ap IpcOsIdentity.unix_uid (omega (arith, (Eq.decides nat_eq a b).0 h))
identity_test_lem (IpcOsIdentity.windows_sid a) (IpcOsIdentity.windows_sid b) h =
    ap IpcOsIdentity.windows_sid (ground (arith, ==→eq a b h))
identity_test_lem (IpcOsIdentity.unix_uid a) (IpcOsIdentity.windows_sid b) h = absurd (cc h)
identity_test_lem (IpcOsIdentity.windows_sid a) (IpcOsIdentity.unix_uid b) h = absurd (cc h)

pub is_same_identity-IsSameAccount :
    (owner peer : IpcPrincipal) → is_same_identity owner peer ≡ true → IsSameAccount owner peer
unfolding is_same_identity
is_same_identity-IsSameAccount owner peer h = by_identities owner.identity peer.identity refl refl h
  where
    by_identities :
        (o p : Option IpcOsIdentity)
        → owner.identity ≡ o
        → peer.identity ≡ p
        → same_identities o p ≡ true
        → IsSameAccount owner peer
    by_identities (some a) (some b) o p same = record {
      identity = a;
      of_owner = o;
      of_peer = p ∙ ap some (identity_test_lem a b same);
    }
    by_identities none p o' p' same = absurd (cc same)
    by_identities (some a) none o' p' same = absurd (cc same)
