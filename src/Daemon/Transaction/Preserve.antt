-- ===== src/Daemon/Transaction/Preserve.antt =====
-- What other tasks do while a mutation waits: heartbeats change heartbeat times, and no event
-- touches Caddy's runtime, its coordinator or the tables.
use cadder.Base.{
  ℕ, String, ◌≡◌, refl, List, [], ◌∷◌, string_eq, arith, ◌∙◌, ap, ◌⊎◌, inl, inr, subst, sym,
}
use cadder.Base.Dict.{adjust}
use cadder.Daemon.{ShutdownSignal, DaemonState, Task}
use cadder.LogStore.{CaddyLogStore}
use cadder.Daemon.Interleaving.{
  touch_heartbeat, heartbeat_fenced, heartbeat, Event, beats, revokes, drains, asks_shutdown,
  writes, meanwhile,
}
use cadder.Daemon.Shutdown.{begin_operation_drain, request_shutdown}
use cadder.Fence.{try_revoke, issue, commit_final, begin_final_commit, guard_commit}
use cadder.Protocol.Messages.{HeartbeatEntrypointPayload}
use cadder.Registrations.{Registrations}
use cadder.Registrations.Conflicts.{serves}
use cadder.Registrations.Exclusive.{IsExclusive}
use cadder.Registrations.Exclusive.Edits.{adjust-IsExclusive_of_less}
use cadder.Registrations.Heartbeats.{at_heartbeat, without_heartbeats}

-- The state is the earlier one up to heartbeat times, the runtime and what says how the daemon ends.
pub record Keeps {S : Type 0} (d d' : DaemonState S) : Type 0 where
  pub registrations : without_heartbeats d'.registrations ≡ without_heartbeats d.registrations
  pub coordinator : d'.coordinator ≡ d.coordinator
  pub database : d'.database ≡ d.database
  pub exclusive : IsExclusive d.registrations → IsExclusive d'.registrations

-- In addition the runtime is the same.
pub record IsQuiet {S : Type 0} (d d' : DaemonState S) : Type 0 where
  pub keeps : Keeps d d'
  pub runtime : d'.runtime ≡ d.runtime

module _ {S : Type 0} where
  pub Keeps-refl : (d : DaemonState S) → Keeps d d
  Keeps-refl d = record {
    registrations = refl;
    coordinator = refl;
    database = refl;
    exclusive = λ x. x;
  }

  pub Keeps-trans : {a b c : DaemonState S} → Keeps a b → Keeps b c → Keeps a c
  Keeps-trans h k = record {
    registrations = k.registrations ∙ h.registrations;
    coordinator = k.coordinator ∙ h.coordinator;
    database = k.database ∙ h.database;
    exclusive = λ x. k.exclusive (h.exclusive x);
  }

  pub IsQuiet-refl : (d : DaemonState S) → IsQuiet d d
  IsQuiet-refl d = record { keeps = Keeps-refl d; runtime = refl }

  pub IsQuiet-trans : {a b c : DaemonState S} → IsQuiet a b → IsQuiet b c → IsQuiet a c
  IsQuiet-trans h k = record {
    keeps = Keeps-trans h.keeps k.keeps;
    runtime = k.runtime ∙ h.runtime;
  }

without-adjust :
    (id : String) (now : ℕ) (m : Registrations)
    → without_heartbeats (adjust id (at_heartbeat now) m) ≡ without_heartbeats m
unfolding without_heartbeats adjust
without-adjust id now [] = refl
without-adjust id now ((j, r) ∷ m) = ground (arith, without-adjust id now m)

beat-IsExclusive :
    (id : String) (now : ℕ) (m : Registrations)
    → IsExclusive m
    → IsExclusive (adjust id (at_heartbeat now) m)
unfolding serves
beat-IsExclusive id now m x =
    adjust-IsExclusive_of_less id (at_heartbeat now) (λ r. refl) m x (λ r k h. h)

touch_cases :
    (p : HeartbeatEntrypointPayload) (now : ℕ) (m : Registrations)
    → ((touch_heartbeat p now m).0 ≡ m)
      ⊎ ((touch_heartbeat p now m).0 ≡ adjust p.registration_id (at_heartbeat now) m)
unfolding touch_heartbeat
touch_cases p now m = ground arith

-- The map after a heartbeat: untouched, or with one time written.
touched :
    (p : HeartbeatEntrypointPayload) (now : ℕ) (m : Registrations)
    → (without_heartbeats (touch_heartbeat p now m).0 ≡ without_heartbeats m)
      × (IsExclusive m → IsExclusive (touch_heartbeat p now m).0)
touched p now m = elim (touch_cases p now m) [
  | inl same ↦ (ap without_heartbeats same, subst IsExclusive (sym same))
  | inr wrote ↦ (
    ap without_heartbeats wrote ∙ without-adjust p.registration_id now m,
    λ x. subst IsExclusive (sym wrote) (beat-IsExclusive p.registration_id now m x),
  )
]

module _ {S : Type 0} where
  pub heartbeat_fenced-heartbeats :
      (p : HeartbeatEntrypointPayload) (now : ℕ) (t : Task S)
      → without_heartbeats (heartbeat_fenced p now t).0.state.registrations
        ≡ without_heartbeats t.state.registrations
  unfolding heartbeat_fenced commit_final begin_final_commit guard_commit
  heartbeat_fenced-heartbeats p now t =
      let written : (without_heartbeats (touch_heartbeat p now t.state.registrations).0
          ≡ without_heartbeats t.state.registrations) =
        (touched p now t.state.registrations).0 in
      ground (arith, written)

  -- A heartbeat leaves the daemon as it is, or writes the touched map.
  heartbeat_state :
      (p : HeartbeatEntrypointPayload) (now : ℕ) (d : DaemonState S)
      → ((heartbeat p now d).0 ≡ d)
        ⊎ ((heartbeat p now d).0
            ≡ record d { registrations = (touch_heartbeat p now d.registrations).0 })
  unfolding heartbeat issue heartbeat_fenced commit_final begin_final_commit guard_commit
  heartbeat_state p now d = ground arith

  pub heartbeat-IsQuiet :
      (p : HeartbeatEntrypointPayload) (now : ℕ) (d : DaemonState S)
      → IsQuiet d (heartbeat p now d).0
  heartbeat-IsQuiet p now d = elim (heartbeat_state p now d) [
    | inl same ↦ subst (IsQuiet d) (sym same) (IsQuiet-refl d)
    | inr wrote ↦
        let (same, exclusive) = touched p now d.registrations in
        subst (IsQuiet d) (sym wrote) (record {
          keeps = record {
            registrations = same;
            coordinator = refl;
            database = refl;
            exclusive = exclusive;
          };
          runtime = refl;
        })
  ]

  drain-IsQuiet : (d : DaemonState S) → IsQuiet d (begin_operation_drain d)
  unfolding begin_operation_drain
  drain-IsQuiet d = record {
    keeps = record {
      registrations = refl;
      coordinator = refl;
      database = refl;
      exclusive = λ x. x;
    };
    runtime = refl;
  }

  unwatched-IsQuiet :
      (d : DaemonState S) (signal : ShutdownSignal) (lines : CaddyLogStore)
      → IsQuiet d (record d { shutdown = signal; logs = lines })
  unwatched-IsQuiet d signal lines = record {
    keeps = record {
      registrations = refl;
      coordinator = refl;
      database = refl;
      exclusive = λ x. x;
    };
    runtime = refl;
  }

  pub meanwhile-IsQuiet : (es : List Event) (t : Task S) → IsQuiet t.state (meanwhile es t).state
  unfolding meanwhile request_shutdown
  meanwhile-IsQuiet [] t = IsQuiet-refl t.state
  meanwhile-IsQuiet (beats p now ∷ es) t =
      IsQuiet-trans (heartbeat-IsQuiet p now t.state)
        (meanwhile-IsQuiet es (record t { state = (heartbeat p now t.state).0 }))
  meanwhile-IsQuiet (revokes ∷ es) t =
      meanwhile-IsQuiet es (record t { fence = (try_revoke t.fence).0 })
  meanwhile-IsQuiet (drains ∷ es) t =
      IsQuiet-trans (drain-IsQuiet t.state)
        (meanwhile-IsQuiet es (record t { state = begin_operation_drain t.state }))
  meanwhile-IsQuiet (asks_shutdown now ∷ es) t =
      IsQuiet-trans (unwatched-IsQuiet t.state (request_shutdown now t.state).shutdown t.state.logs)
        (meanwhile-IsQuiet es (record t { state = request_shutdown now t.state }))
  meanwhile-IsQuiet (writes lines ∷ es) t =
      IsQuiet-trans (unwatched-IsQuiet t.state t.state.shutdown lines)
        (meanwhile-IsQuiet es (record t { state = record t.state { logs = lines } }))
