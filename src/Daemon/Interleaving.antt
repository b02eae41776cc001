-- ===== src/Daemon/Interleaving.antt =====
-- Heartbeats, and what other tasks may do while a mutation waits: heartbeats take no part in
-- `config_operation`, the mutation's deadline may revoke its fence, the daemon may drain, a shutdown
-- may be asked for, and the log store may get lines: `writes` has the store that they leave.
use cadder.Base.{
  ℕ, Bool, true, false, none, some, List, [], ◌∷◌, Result, ok, err, ◌==◌, string_eq, if◌then◌else◌,
}
use cadder.Base.Dict.{lookup, adjust}
use cadder.Daemon.{DaemonState, Task}
use cadder.Daemon.Shutdown.{begin_operation_drain, request_shutdown}
use cadder.LogStore.{CaddyLogStore}
use cadder.Fence.{CommitRejection, issue, commit_final, try_revoke}
use cadder.Protocol.Messages.{HeartbeatEntrypointPayload, BasicResponse}
use cadder.Protocol.State.{nonce}
use cadder.Registrations.{Registrations}
use cadder.Registrations.Heartbeats.{at_heartbeat}

-- The write of an accepted heartbeat, and whether it was accepted.
unfoldable pub touch_heartbeat :
    HeartbeatEntrypointPayload → ℕ → Registrations → Registrations × Bool
unfolding lookup adjust
touch_heartbeat p now m = elim (lookup p.registration_id m) [
  | none ↦ (m, false)
  | some r ↦
      (if nonce r == p.shim_session_nonce
        then (adjust p.registration_id (at_heartbeat now) m, true)
        else (m, false))
]

abbrev heartbeat_response : Bool → BasicResponse
heartbeat_response accepted = record {
  request_id = "";
  accepted = accepted;
  message =
      if accepted
      then "Heartbeat accepted."
      else "Entrypoint was not found for the requested owner.";
}

module _ {S : Type 0} where
  unfoldable pub heartbeat_fenced :
      HeartbeatEntrypointPayload → ℕ → Task S → Task S × Result BasicResponse CommitRejection
  unfolding touch_heartbeat commit_final
  heartbeat_fenced p now t =
      let (f, m, result) =
        commit_final t.state.lifecycle t.fence (touch_heartbeat p now) t.state.registrations in
      (
        record { state = record t.state { registrations = m }; fence = f },
        (elim result [ ok accepted ↦ ok (heartbeat_response accepted) | err e ↦ err e ]),
      )

  -- `heartbeat`, with a fence of its own.
  unfoldable pub heartbeat :
      HeartbeatEntrypointPayload
      → ℕ
      → DaemonState S
      → DaemonState S × Result BasicResponse CommitRejection
  unfolding heartbeat_fenced issue
  heartbeat p now d = elim (issue d.lifecycle) [
    | err e ↦ (d, err e)
    | ok f ↦
        (let (t, result) = heartbeat_fenced p now (record { state = d; fence = f }) in
          (t.state, result))
  ]

pub data Event : Type 0 where
  beats : HeartbeatEntrypointPayload → (now : ℕ) → Event
  revokes drains : Event
  asks_shutdown : (now : ℕ) → Event
  writes : (lines : CaddyLogStore) → Event

module _ {S : Type 0} where
  unfoldable pub meanwhile : List Event → Task S → Task S
  unfolding heartbeat try_revoke begin_operation_drain request_shutdown
  meanwhile [] t = t
  meanwhile (beats p now ∷ es) t = meanwhile es (record t { state = (heartbeat p now t.state).0 })
  meanwhile (revokes ∷ es) t = meanwhile es (record t { fence = (try_revoke t.fence).0 })
  meanwhile (drains ∷ es) t = meanwhile es (record t { state = begin_operation_drain t.state })
  meanwhile (asks_shutdown now ∷ es) t =
      meanwhile es (record t { state = request_shutdown now t.state })
  meanwhile (writes lines ∷ es) t =
      meanwhile es (record t { state = record t.state { logs = lines } })
