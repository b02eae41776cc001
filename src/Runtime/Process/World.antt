-- ===== src/Runtime/Process/World.antt =====
-- What crates/cadder-daemon/src/runtime/process.rs owns and calls: the child process, the effective
-- configuration's file, and the answers of the operating system and of Caddy. A call takes the next
-- answer; past the end every answer is `done`. The context that an error gets on its way is left out.
use cadder.Base.{ℕ, String, Option, none, some, List, [], ◌∷◌, Result, ok, err}
use cadder.LogStore.{CaddyLogStore, append}
use cadder.Protocol.Logs.{LogSeverity, LogAttributionKind, runtime_control_stream}
use cadder.Protocol.State.{RuntimeState}
use cadder.Runtime.{Machine, LogEnv}

pub data Answer : Type 0 where
  done : Answer
  fails : String → Answer
  -- The call took effect, and then failed.
  fails_late : String → Answer
  times_out : Answer
  exits : String → Answer

-- `OwnedRuntimeProcess`, with the configuration that Caddy took last.
pub record OwnedRuntimeProcess : Type 0 where
  pub binary : String
  pub process_id : Option ℕ
  pub config : List ℕ

-- The Caddy image that the resolver has pinned.
pub record PinnedImage : Type 0 where
  pub path : String
  pub version : String

-- `process_ids` are those that the system gives to the processes that are spawned.
pub record ProcessState : Type 0 where
  pub image : PinnedImage
  pub effective : Option (List ℕ)
  pub child : Option OwnedRuntimeProcess
  pub snapshot : RuntimeState
  pub process_ids : List (Option ℕ)
  pub answers : List Answer

abbrev pub Process : Type 0
Process = Machine ProcessState

-- A call that may fail: the state after it, and its result.
abbrev pub Call : Type 0 → Type 0
Call A = Process → Process × Result A String

infixl 5 ◌>>=◌ ◌>>◌
abbrev pub ◌>>=◌ : {A B : Type 0} → Call A → (A → Call B) → Call B
◌>>=◌ c f m = let (m', r) = c m in elim r [ ok a ↦ f a m' | err e ↦ (m', err e) ]

abbrev pub ◌>>◌ : {B : Type 0} → Call (Unit {0}) → Call B → Call B
c >> k = c >>= λ _. k

abbrev pub pure : {A : Type 0} → A → Call A
pure a m = (m, ok a)

abbrev pub fail : {A : Type 0} → String → Call A
fail e m = (m, err e)

abbrev pub head_answer : List Answer → Answer
head_answer [] = done
head_answer (a ∷ as') = a

abbrev pub tail {ℓ} : {A : Type ℓ} → List A → List A
tail [] = []
tail (a ∷ as') = as'

abbrev pub head_id : List (Option ℕ) → Option ℕ
head_id [] = none
head_id (i ∷ is) = i

abbrev pub answered : Process → Process
answered m = record m { runtime = record m.runtime { answers = tail m.runtime.answers } }

abbrev pub answer : Process → Answer
answer m = head_answer m.runtime.answers

abbrev pub with_child : Option OwnedRuntimeProcess → Process → Process
with_child c m = record m { runtime = record m.runtime { child = c } }

abbrev pub with_effective : Option (List ℕ) → Process → Process
with_effective c m = record m { runtime = record m.runtime { effective = c } }

abbrev pub with_snapshot : RuntimeState → Process → Process
with_snapshot s m = record m { runtime = record m.runtime { snapshot = s } }

-- How an answer reads for a call that completes or fails,
abbrev pub completed : Answer → Result (Unit {0}) String
completed done = ok tt
completed (exits status) = ok tt
completed (fails e) = err e
completed (fails_late e) = err e
completed times_out = err "the deadline has elapsed"

-- for the state of a child,
pub data Status : Type 0 where
  alive : Status
  exited : String → Status
  unreadable : String → Status

abbrev pub status_of : Answer → Status
status_of done = alive
status_of times_out = alive
status_of (exits status) = exited status
status_of (fails e) = unreadable e
status_of (fails_late e) = unreadable e

-- and for a wait with a deadline until a child has exited.
pub data Waited : Type 0 where
  joined : Waited
  broken : String → Waited
  elapsed : Waited

abbrev pub waited : Answer → Waited
waited done = joined
waited (exits status) = joined
waited (fails e) = broken e
waited (fails_late e) = broken e
waited times_out = elapsed

abbrev pub call : Call (Unit {0})
call m = (answered m, completed (answer m))

-- `CaddyLogStore::append` of a line of the runtime's control.
unfoldable pub control_line : LogEnv → LogSeverity → String → String → CaddyLogStore → CaddyLogStore
unfolding append
control_line l severity message operation logs =
    append l.redact l.now l.fault runtime_control_stream severity message
      LogAttributionKind.runtime_control (some operation) logs

abbrev pub control_log : LogEnv → LogSeverity → String → String → Process → Process
control_log l severity message operation m = record m {
  logs = control_line l severity message operation m.logs;
}
