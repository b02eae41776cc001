-- ===== src/Protocol/Snapshot.antt =====
-- What a query of the state answers: `GuiStateSnapshot` of crates/cadder-ipc/src/state.rs, with
-- `StorageState` of storage.rs and `QueryStateResponse` of responses.rs.
use cadder.Base.{ℕ, String, Bool, Option, List}
use cadder.Protocol.State.{EntrypointRegistration, RuntimeDiagnostic, RuntimeState, ConfigState}

pub record StorageState : Type 0 where
  pub backend : String
  pub path : Option String
  pub schema_version : ℕ
  pub diagnostics : List RuntimeDiagnostic

pub record GuiStateSnapshot : Type 0 where
  pub captured_at_utc : ℕ
  pub registrations : List EntrypointRegistration
  pub runtime : RuntimeState
  pub config : ConfigState
  pub storage : Option StorageState

pub record QueryStateResponse : Type 0 where
  pub request_id : String
  pub accepted : Bool
  pub message : String
  pub snapshot : Option GuiStateSnapshot
