-- ===== src/Daemon/Snapshots.antt =====
-- crates/cadder-daemon/src/state/runtime_status.rs: the state that a query answers, over the process
-- runtime, with `storage_state` of state/lifecycle.rs and `Database::state` of database.rs.
use cadder.Base.{ℕ, String, true, Option, none, some, List, [], ◌∷◌, ◌++◌}
use cadder.Base.Dict.{values}
use cadder.Daemon.Deadlines.{Daemon, machine, with_machine}
use cadder.Database.{Tables}
use cadder.Protocol.Snapshot.{StorageState, GuiStateSnapshot, QueryStateResponse}
use cadder.Protocol.State.{RuntimeDiagnostic}
use cadder.Runtime.Process.Start.{inspect}

-- Where the database is, and what its opening reported.
pub record StorageFile : Type 0 where
  pub path : String
  pub diagnostics : List RuntimeDiagnostic

abbrev stored_in : StorageFile → Option Tables → StorageState
stored_in f none = record { backend = "memory"; path = none; schema_version = 0; diagnostics = [] }
stored_in f (some tables) = record {
  backend = "sqlite";
  path = some f.path;
  schema_version = 1;
  diagnostics = f.diagnostics;
}

abbrev with_durability : Option String → StorageState → StorageState
with_durability none s = s
with_durability (some message) s = record s {
  diagnostics =
      s.diagnostics
      ++ record {
        code = "log-durability-failed";
        message = message;
        operation = some "persist-log";
      }
        ∷ [];
}

unfoldable pub storage_state : StorageFile → Daemon → StorageState
storage_state f d = with_durability d.logs.durability_error (stored_in f d.database)

-- The inspection of the runtime is a call of the system, and may change what the runtime shows.
unfoldable pub snapshot : StorageFile → ℕ → Daemon → Daemon × GuiStateSnapshot
unfolding inspect storage_state
snapshot f now d =
    let (m, runtime) = inspect (machine d) in
    (
      with_machine d m,
      record {
        captured_at_utc = now;
        registrations = values d.registrations;
        runtime = runtime;
        config = d.coordinator.current;
        storage = some (storage_state f d);
      },
    )

unfoldable pub query_state : StorageFile → ℕ → Daemon → Daemon × QueryStateResponse
unfolding snapshot
query_state f now d =
    let (d', taken) = snapshot f now d in
    (
      d',
      record {
        request_id = "";
        accepted = true;
        message = "State snapshot returned.";
        snapshot = some taken;
      },
    )
