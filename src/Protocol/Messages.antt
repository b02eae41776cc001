-- ===== src/Protocol/Messages.antt =====
-- crates/cadder-ipc/src/mutations.rs and responses.rs: the payloads of the mutations and the
-- responses.
use cadder.Base.{String, Bool, Option}

pub record HeartbeatEntrypointPayload : Type 0 where
  pub registration_id : String
  pub shim_session_nonce : String

pub record SetEntrypointEnabledPayload : Type 0 where
  pub registration_id : String
  pub shim_session_nonce : Option String
  pub enabled : Bool

pub record SetDomainEnabledPayload : Type 0 where
  pub registration_id : String
  pub domain_key : String
  pub enabled : Bool

pub record RegisterEntrypointResponse : Type 0 where
  pub request_id : String
  pub accepted : Bool
  pub message : String
  pub registration_id : Option String

pub record BasicResponse : Type 0 where
  pub request_id : String
  pub accepted : Bool
  pub message : String
