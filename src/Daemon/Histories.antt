-- ===== src/Daemon/Histories.antt =====
-- Histories of the daemon: any mutations, heartbeats and cleanups of connections,
-- one after another, each with its own
-- environment and its own interleaving with other tasks.
use cadder.Base.{ℕ, String, ◌≡◌, true, Option, some, List, [], ◌∷◌}
use cadder.Base.Dict.{Dict, lookup}
use cadder.Daemon.{DaemonState, Env, new_state}
use cadder.Daemon.Closing.{cleanup_connection}
use cadder.Daemon.Closing.Cleanup.{cleanup-IsExclusive}
use cadder.Daemon.Interleaving.{heartbeat}
use cadder.Daemon.Mutations.{register, unregister, set_entrypoint_enabled, set_domain_enabled}
use cadder.Daemon.Mutations.Effects.{
  Unregisters, SetsEntrypoint, SetsDomain, unregister_effect, set_entrypoint_enabled_effect,
  set_domain_enabled_effect,
}
use cadder.Daemon.Mutations.Outcome.{IsOutcome-IsExclusive}
use cadder.Daemon.Mutations.Register.{Registers, register_effect}
use cadder.Daemon.Transaction.{Schedule}
use cadder.Daemon.Transaction.Preserve.{heartbeat-IsQuiet}
use cadder.Database.{Tables}
use cadder.LogStore.{CaddyLogStore}
use cadder.Protocol.Messages.{
  HeartbeatEntrypointPayload, SetEntrypointEnabledPayload, SetDomainEnabledPayload,
}
use cadder.Protocol.State.{EntrypointRegistration}
use cadder.Registrations.Conflicts.{serves}
use cadder.Registrations.Exclusive.{IsExclusive, empty-IsExclusive}
use cadder.Runtime.{Runtime, Serving}

pub data Mutation : Type 0 where
  registers : EntrypointRegistration → Mutation
  unregisters : (id session : String) → Mutation
  sets_entrypoint : SetEntrypointEnabledPayload → Mutation
  sets_domain : SetDomainEnabledPayload → Mutation
  touches : HeartbeatEntrypointPayload → (now : ℕ) → Mutation
  cleans : (entries : Dict String) → Mutation

-- A mutation, what it meets, and what other tasks do meanwhile.
pub record Turn : Type 0 where
  pub mutation : Mutation
  pub env : Env
  pub schedule : Schedule

module _ (R : Runtime) where
  perform : Mutation → Env → Schedule → DaemonState R.State → DaemonState R.State
  unfolding register unregister set_entrypoint_enabled set_domain_enabled heartbeat
      cleanup_connection
  perform (registers r) x es d = (register R x es r d).0
  perform (unregisters id session) x es d = (unregister R x es id session d).0
  perform (sets_entrypoint p) x es d = (set_entrypoint_enabled R x es p d).0
  perform (sets_domain p) x es d = (set_domain_enabled R x es p d).0
  perform (touches p now) x es d = (heartbeat p now d).0
  perform (cleans entries) x es d = cleanup_connection R x es entries d

  unfoldable pub replay : List Turn → DaemonState R.State → DaemonState R.State
  unfolding perform
  replay [] d = d
  replay (u ∷ us) d = replay us (perform u.mutation u.env u.schedule d)

module _ {R : Runtime} (V : Serving R) where
  perform-IsExclusive :
      (u : Mutation) (x : Env) (es : Schedule) (d : DaemonState R.State)
      → IsExclusive d.registrations
      → IsExclusive (perform R u x es d).registrations
  unfolding perform
  perform-IsExclusive (registers r) x es d =
      IsOutcome-IsExclusive V x (Registers x.now (x.prepare r)) (register R x es r d).1.accepted d
        (register R x es r d).0 (register_effect V x es r d)
  perform-IsExclusive (unregisters id session) x es d =
      IsOutcome-IsExclusive V x (Unregisters id session) (unregister R x es id session d).1.accepted
        d (unregister R x es id session d).0 (unregister_effect V x es id session d)
  perform-IsExclusive (sets_entrypoint p) x es d =
      IsOutcome-IsExclusive V x (SetsEntrypoint p) (set_entrypoint_enabled R x es p d).1.accepted d
        (set_entrypoint_enabled R x es p d).0 (set_entrypoint_enabled_effect V x es p d)
  perform-IsExclusive (sets_domain p) x es d =
      IsOutcome-IsExclusive V x (SetsDomain p) (set_domain_enabled R x es p d).1.accepted d
        (set_domain_enabled R x es p d).0 (set_domain_enabled_effect V x es p d)
  perform-IsExclusive (touches p now) x es d = (heartbeat-IsQuiet p now d).keeps.exclusive
  perform-IsExclusive (cleans entries) x es d = cleanup-IsExclusive V x es entries d

  replay-IsExclusive :
      (us : List Turn) (d : DaemonState R.State)
      → IsExclusive d.registrations
      → IsExclusive (replay R us d).registrations
  unfolding replay
  replay-IsExclusive [] d e = e
  replay-IsExclusive (u ∷ us) d e =
      replay-IsExclusive us (perform R u.mutation u.env u.schedule d)
        (perform-IsExclusive u.mutation u.env u.schedule d e)

  -- After any history of a new daemon, failures and interleavings included, no domain is served by
  -- two registrations: registrations that are found under two ids and both serve a domain, being
  -- enabled with the domain enabled, are found under one id.
  pub replay_exclusive :
      (us : List Turn) (machine : R.State) (tables : Option Tables) (logs : CaddyLogStore)
      (k i j : String) (r s : EntrypointRegistration)
      → lookup i (replay R us (new_state machine tables logs)).registrations ≡ some r
      → lookup j (replay R us (new_state machine tables logs)).registrations ≡ some s
      → serves k r ≡ true
      → serves k s ≡ true
      → i ≡ j
  unfolding new_state
  replay_exclusive us machine tables logs k i j r s =
      (replay-IsExclusive us (new_state machine tables logs) empty-IsExclusive).single k i j r s
