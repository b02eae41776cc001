-- ===== src/Daemon/Closing/Cleanup.antt =====
-- The cleanup of a connection keeps exclusive registrations so.
use cadder.Base.{String, ◌≡◌, refl, [], ◌∷◌, Result, ok, err, sym, subst, arith}
use cadder.Base.Dict.{Dict}
use cadder.Daemon.{DaemonState, Env}
use cadder.Daemon.Closing.{cleanup_log, unregister_for_ipc_disconnect, cleanup_connection}
use cadder.Daemon.Mutations.{unregister, unregister_fenced, with_fence}
use cadder.Daemon.Responses.{mutation_rejected}
use cadder.Daemon.Mutations.Effects.{Unregisters, unregister_effect}
use cadder.Daemon.Mutations.Outcome.{IsOutcome-IsExclusive}
use cadder.Daemon.Transaction.{Schedule}
use cadder.Fence.{CommitRejection, OperationFence, issue}
use cadder.Protocol.Messages.{BasicResponse}
use cadder.Registrations.Exclusive.{IsExclusive}
use cadder.Runtime.{Runtime, Serving}

module _ {R : Runtime} (V : Serving R) (x : Env) (es : Schedule) where
  -- The log line touches no registration.
  logged-registrations :
      (result : Result BasicResponse CommitRejection) (d : DaemonState R.State)
      → (cleanup_log R x result d).registrations ≡ d.registrations
  unfolding cleanup_log
  logged-registrations result d = ground arith

  -- The cleanup of one entry leaves the registrations that `unregister` does.
  disconnect-registrations :
      (id session : String) (d : DaemonState R.State)
      → (unregister_for_ipc_disconnect R x es id session d).registrations
        ≡ (unregister R x es id session d).0.registrations
  unfolding unregister_for_ipc_disconnect unregister mutation_rejected
  disconnect-registrations id session d = by_issue (issue d.lifecycle) refl
    where
      by_issue :
          (o : Result OperationFence CommitRejection)
          → issue d.lifecycle ≡ o
          → (unregister_for_ipc_disconnect R x es id session d).registrations
            ≡ (unregister R x es id session d).0.registrations
      by_issue (err e) h = rw (h, unregister, with_fence, unregister_for_ipc_disconnect) refl
      by_issue (ok f) h =
          rw (h, unregister, with_fence, unregister_for_ipc_disconnect)
            (logged-registrations
              (unregister_fenced R x es id session (record { state = d; fence = f })).1
              (unregister_fenced R x es id session (record { state = d; fence = f })).0.state)

  pub cleanup-IsExclusive :
      (entries : Dict String) (d : DaemonState R.State)
      → IsExclusive d.registrations
      → IsExclusive (cleanup_connection R x es entries d).registrations
  unfolding cleanup_connection
  cleanup-IsExclusive [] d h = h
  cleanup-IsExclusive ((id, session) ∷ entries) d h =
      cleanup-IsExclusive entries (unregister_for_ipc_disconnect R x es id session d) (
        subst IsExclusive (sym (disconnect-registrations id session d)) (
          IsOutcome-IsExclusive V x (Unregisters id session)
            (unregister R x es id session d).1.accepted d (unregister R x es id session d).0
            (unregister_effect V x es id session d) h))
