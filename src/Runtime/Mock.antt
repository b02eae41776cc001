-- ===== src/Runtime/Mock.antt =====
-- crates/cadder-daemon/src/runtime/mock_runtime.rs, and the files of
-- crates/cadder-daemon/src/runtime_file.rs as far as it uses them. Each file operation takes the
-- next entry of `faults`: an error, or `none`; past the end there are no more errors. A write that
-- fails may have installed its file before.
pub mod Laws
use cadder.Base.{
  ℕ, String, Bool, true, false, Option, none, some, List, [], ◌∷◌, Result, ok, err, length,
}
use cadder.LogStore.{CaddyLogStore, append}
use cadder.Protocol.Logs.{LogSeverity, LogAttributionKind, runtime_control_stream}
use cadder.Runtime.{Machine, LogEnv}

-- An error before the file is changed, or one of the finalization after it.
pub data FileFault : Type 0 where
  unwritten written : String → FileFault

pub record MockState : Type 0 where
  pub effective : Option (List ℕ)
  pub running : Bool
  pub applied_config_bytes : ℕ
  pub faults : List (Option FileFault)

abbrev next_fault : List (Option FileFault) → Option FileFault
next_fault [] = none
next_fault (f ∷ fs) = f

abbrev later_faults : List (Option FileFault) → List (Option FileFault)
later_faults [] = []
later_faults (f ∷ fs) = fs

abbrev as_result : Option FileFault → Result (Unit {0}) String
as_result none = ok tt
as_result (some (unwritten e)) = err e
as_result (some (written e)) = err e

abbrev installed : Option FileFault → Option (List ℕ) → Option (List ℕ) → Option (List ℕ)
installed none config before = config
installed (some (unwritten e)) config before = before
installed (some (written e)) config before = config

-- A file operation: its error, if any, and the state with the fault used up.
file_step : MockState → MockState × Result (Unit {0}) String
file_step s = (record s { faults = later_faults s.faults }, as_result (next_fault s.faults))

-- `restore_effective_config`, `promote` and `remove_effective_config` write the file
-- if they succeed, and if only their finalization fails.
write_effective : Option (List ℕ) → MockState → MockState × Result (Unit {0}) String
unfolding file_step
write_effective config s =
    let (s', result) = file_step s in
    (record s' { effective = installed (next_fault s.faults) config s.effective }, result)

pub record MockRuntimeApplyReceipt : Type 0 where
  pub staged : List ℕ
  pub previous_config : Option (List ℕ)
  pub previous_running : Bool
  pub previous_bytes : ℕ
  pub applied_config_bytes : ℕ

pub record MockRuntimeStopReceipt : Type 0 where
  pub previous_config : Option (List ℕ)
  pub previous_running : Bool
  pub previous_bytes : ℕ

abbrev on {ℓ} : {A : Type ℓ} → Machine MockState → MockState × A → Machine MockState × A
on m (s, a) = (record m { runtime = s }, a)

-- The configuration is read, and then the new one is staged.
begin_apply_state :
    List ℕ
    → MockState
    → MockState × Result (MockRuntimeApplyReceipt × Result (Unit {0}) String) String
unfolding file_step
begin_apply_state rendered s =
    let (s₁, read) = file_step s in
    let (s₂, stage) = file_step s₁ in
    elim read [
      | err e ↦ (s₁, err e)
      | ok _ ↦ elim stage [
        | err e ↦ (s₂, err e)
        | ok _ ↦ (
          s₂,
          ok (
            record {
              staged = rendered;
              previous_config = s.effective;
              previous_running = s.running;
              previous_bytes = s.applied_config_bytes;
              applied_config_bytes = length rendered;
            },
            ok tt,
          ),
        )
      ]
    ]

unfoldable pub begin_apply_config :
    LogEnv
    → List ℕ
    → Machine MockState
    → Machine MockState × Result (MockRuntimeApplyReceipt × Result (Unit {0}) String) String
unfolding begin_apply_state
begin_apply_config l rendered m = on m (begin_apply_state rendered m.runtime)

record_apply : LogEnv → CaddyLogStore → CaddyLogStore
unfolding append
record_apply l logs =
    append l.redact l.now l.fault runtime_control_stream LogSeverity.info
      "mock Caddy runtime accepted effective config without starting a process"
      LogAttributionKind.runtime_control (some "mock-apply") logs

unfoldable pub accept_apply :
    LogEnv
    → MockRuntimeApplyReceipt
    → Machine MockState
    → Machine MockState × Result (Unit {0}) String
unfolding write_effective record_apply
accept_apply l r m =
    let (s, promoted) = write_effective (some r.staged) m.runtime in
    elim promoted [
      | err e ↦ (record m { runtime = s }, err e)
      | ok _ ↦ (
        record {
          runtime = record s { running = true; applied_config_bytes = r.applied_config_bytes };
          logs = record_apply l m.logs;
        },
        ok tt,
      )
    ]

restore :
    Option (List ℕ) → Bool → ℕ → Machine MockState → Machine MockState × Result (Unit {0}) String
unfolding write_effective
restore config running bytes m =
    let (s, restored) = write_effective config m.runtime in
    elim restored [
      | err e ↦ (record m { runtime = s }, err e)
      | ok _ ↦ (
        record m { runtime = record s { running = running; applied_config_bytes = bytes } },
        ok tt,
      )
    ]

unfoldable pub rollback_apply :
    LogEnv
    → MockRuntimeApplyReceipt
    → Machine MockState
    → Machine MockState × Result (Unit {0}) String
unfolding restore
rollback_apply l r m = restore r.previous_config r.previous_running r.previous_bytes m

unfoldable pub begin_stop :
    LogEnv
    → Machine MockState
    → Machine MockState × Result (MockRuntimeStopReceipt × Result (Unit {0}) String) String
unfolding file_step
begin_stop l m =
    let (s, read) = file_step m.runtime in
    elim read [
      | err e ↦ (record m { runtime = s }, err e)
      | ok _ ↦ (
        record m { runtime = record s { running = false } },
        ok (
          record {
            previous_config = m.runtime.effective;
            previous_running = m.runtime.running;
            previous_bytes = m.runtime.applied_config_bytes;
          },
          ok tt,
        ),
      )
    ]

unfoldable pub accept_stop :
    LogEnv
    → MockRuntimeStopReceipt
    → Machine MockState
    → Machine MockState × Result (Unit {0}) String
unfolding write_effective
accept_stop l r m = on m (write_effective none m.runtime)

unfoldable pub rollback_stop :
    LogEnv
    → MockRuntimeStopReceipt
    → Machine MockState
    → Machine MockState × Result (Unit {0}) String
unfolding restore
rollback_stop l r m = restore r.previous_config r.previous_running r.previous_bytes m
