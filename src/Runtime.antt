-- ===== src/Runtime.antt =====
-- crates/cadder-daemon/src/runtime.rs: what the daemon asks of the Caddy runtime that it owns. An
-- apply or a stop begins, and is then accepted or rolled back through its receipt. The interface
-- has the operations, what Caddy serves in a state, and the promises of the receipts; `Runtime.Mock`
-- is the implementation of crates/cadder-daemon/src/runtime/mock_runtime.rs.
pub mod Mock
pub mod Process
use cadder.Base.{ℕ, String, ◌≡◌, Option, none, some, List, Result, ok, err}
use cadder.Database.{StorageFault}
use cadder.LogStore.{CaddyLogStore}

-- The runtime's state, and the log store that it writes to.
pub record Machine (S : Type 0) : Type 0 where
  pub runtime : S
  pub logs : CaddyLogStore

-- The clock, the redaction and the storage faults that a log line meets.
pub record LogEnv : Type 0 where
  pub redact : String → String
  pub now : ℕ
  pub fault : Option StorageFault

pub record Runtime : Type 1 where
  pub State : Type 0
  pub ApplyReceipt : Type 0
  pub StopReceipt : Type 0
  pub begin_apply_config :
      LogEnv
      → List ℕ
      → Machine State
      → Machine State × Result (ApplyReceipt × Result (Unit {0}) String) String
  pub accept_apply :
      LogEnv → ApplyReceipt → Machine State → Machine State × Result (Unit {0}) String
  pub rollback_apply :
      LogEnv → ApplyReceipt → Machine State → Machine State × Result (Unit {0}) String
  pub begin_stop :
      LogEnv
      → Machine State
      → Machine State × Result (StopReceipt × Result (Unit {0}) String) String
  pub accept_stop : LogEnv → StopReceipt → Machine State → Machine State × Result (Unit {0}) String
  pub rollback_stop :
      LogEnv → StopReceipt → Machine State → Machine State × Result (Unit {0}) String

-- The effective configuration that Caddy runs with, if it runs, and how the operations change it:
-- not when they are refused, to the new one when an apply is accepted, to none when a stop is, and
-- back to the earlier one when a rollback succeeds, before or after a failed acceptance.
pub record Serving (R : Runtime) : Type 0 where
  pub serving : R.State → Option (List ℕ)
  pub apply_refused :
      (l : LogEnv) (c : List ℕ) (m m' : Machine R.State) (e : String)
      → R.begin_apply_config l c m ≡ (m', err e)
      → serving m'.runtime ≡ serving m.runtime
  pub apply_accepted :
      (l : LogEnv) (c : List ℕ) (m m' m'' : Machine R.State) (r : R.ApplyReceipt)
      (lines : CaddyLogStore)
      → R.begin_apply_config l c m ≡ (m', ok (r, ok tt))
      → R.accept_apply l r (record m' { logs = lines }) ≡ (m'', ok tt)
      → serving m''.runtime ≡ some c
  pub apply_undone :
      (l : LogEnv) (c : List ℕ) (m m' m'' : Machine R.State) (r : R.ApplyReceipt)
      (o : Result (Unit {0}) String) (lines : CaddyLogStore)
      → R.begin_apply_config l c m ≡ (m', ok (r, o))
      → R.rollback_apply l r (record m' { logs = lines }) ≡ (m'', ok tt)
      → serving m''.runtime ≡ serving m.runtime
  pub apply_undone_later :
      (l : LogEnv) (c : List ℕ) (m m' m'' : Machine R.State) (r : R.ApplyReceipt)
      (o : Result (Unit {0}) String) (before lines : CaddyLogStore)
      → R.begin_apply_config l c m ≡ (m', ok (r, o))
      → R.rollback_apply l r
          (record (R.accept_apply l r (record m' { logs = before })).0 { logs = lines })
        ≡ (m'', ok tt)
      → serving m''.runtime ≡ serving m.runtime
  pub stop_refused :
      (l : LogEnv) (m m' : Machine R.State) (e : String)
      → R.begin_stop l m ≡ (m', err e)
      → serving m'.runtime ≡ serving m.runtime
  pub stop_accepted :
      (l : LogEnv) (m m' m'' : Machine R.State) (r : R.StopReceipt) (lines : CaddyLogStore)
      → R.begin_stop l m ≡ (m', ok (r, ok tt))
      → R.accept_stop l r (record m' { logs = lines }) ≡ (m'', ok tt)
      → serving m''.runtime ≡ none
  pub stop_undone :
      (l : LogEnv) (m m' m'' : Machine R.State) (r : R.StopReceipt) (o : Result (Unit {0}) String)
      (lines : CaddyLogStore)
      → R.begin_stop l m ≡ (m', ok (r, o))
      → R.rollback_stop l r (record m' { logs = lines }) ≡ (m'', ok tt)
      → serving m''.runtime ≡ serving m.runtime
  pub stop_undone_later :
      (l : LogEnv) (m m' m'' : Machine R.State) (r : R.StopReceipt) (o : Result (Unit {0}) String)
      (before lines : CaddyLogStore)
      → R.begin_stop l m ≡ (m', ok (r, o))
      → R.rollback_stop l r
          (record (R.accept_stop l r (record m' { logs = before })).0 { logs = lines })
        ≡ (m'', ok tt)
      → serving m''.runtime ≡ serving m.runtime
