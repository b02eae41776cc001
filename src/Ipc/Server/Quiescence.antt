-- ===== src/Ipc/Server/Quiescence.antt =====
-- What a daemon that has ended leaves behind.
use cadder.Base.{
  ℕ, ◌+◌, String, ◌≡◌, refl, true, false, not, Option, none, some, Result, ok, err, arith, if-elim,
}
use cadder.Daemon.Deadlines.{
  Daemon, timeout_at, ShutdownPreparation, prepare_shutdown_until, force_stop_runtime,
}
use cadder.Daemon.Deadlines.Rest.{
  IsAtRest, prepare-IsPrepared, IsForcedRest, force_stop_runtime-IsForcedRest,
}
use cadder.Daemon.Shutdown.{begin_operation_drain}
use cadder.Fence.{CommitRejection, issue}
use cadder.Ipc.Server.{
  IpcLimits, ShutdownTimeline, ServerError, Closure, ServerEnd, Drained, timeline, runtime_deadline,
  verdict, close_storage, force_runtime, stop_runtime, drain_handlers, shut_down,
}

-- A daemon that ended well had no failure, is at rest, and lets no mutation begin. Unless it was the
-- forced stop that failed, it is at rest at any rate.
abbrev pub EndsAtRest : Option String → Daemon → Result (Unit {0}) ServerError → Type 0
EndsAtRest server d (ok u) =
    IsAtRest d × (server ≡ none) × (issue d.lifecycle ≡ err CommitRejection.draining)
EndsAtRest server d (err ServerError.force_late) = Unit {0}
EndsAtRest server d (err (ServerError.force_failed e)) = Unit {0}
EndsAtRest server d (err (ServerError.runtime_refused e)) = IsAtRest d
EndsAtRest server d (err (ServerError.storage_failed e)) = IsAtRest d
EndsAtRest server d (err (ServerError.handlers_failed e)) = IsAtRest d
EndsAtRest server d (err (ServerError.accept_failed e)) = IsAtRest d

module _ (c : Closure) (t : ShutdownTimeline) (handler server : Option String) where
  verdict-EndsAtRest :
      (p : ShutdownPreparation) (storage : Result (Unit {0}) String) (d : Daemon)
      → IsAtRest d
      → (p.response.accepted ≡ true → issue d.lifecycle ≡ err CommitRejection.draining)
      → EndsAtRest server d (verdict c p storage handler server)
  verdict-EndsAtRest p storage d rest shut =
      if-elim (EndsAtRest server d) (not p.response.accepted) (λ _. rest)
        (λ accepted. by_storage (shut (ground (arith, accepted))) storage handler server refl)
    where
      by_storage :
          issue d.lifecycle ≡ err CommitRejection.draining
          → (s : Result (Unit {0}) String) (h f : Option String) → f ≡ server
          → EndsAtRest server d (elim s [
            | err e ↦ err (ServerError.storage_failed e)
            | ok _ ↦ elim h [
              | some e ↦ err (ServerError.handlers_failed e)
              | none ↦ elim f [ some e ↦ err (ServerError.accept_failed e) | none ↦ ok tt ]
            ]
          ])
      by_storage closed (err e) h f same = rest
      by_storage closed (ok u) (some e) f same = rest
      by_storage closed (ok u) none (some e) same = rest
      by_storage closed (ok u) none none same = (rest, cc same, closed)

  abbrev Ends : ServerEnd → Type 0
  Ends e = EndsAtRest server e.state e.result

  close_storage-Ends :
      (p : ShutdownPreparation) (now : ℕ) (d : Daemon)
      → IsAtRest d
      → (p.response.accepted ≡ true → issue d.lifecycle ≡ err CommitRejection.draining)
      → Ends (close_storage c t handler server p now d)
  unfolding close_storage
  close_storage-Ends p now d rest shut = verdict-EndsAtRest p _ d rest shut

  -- What is forced was not accepted.
  force_runtime-Ends :
      (p : ShutdownPreparation) (now : ℕ) (d : Daemon)
      → p.response.accepted ≡ false
      → Ends (force_runtime c t handler server p now d)
  unfolding force_runtime
  force_runtime-Ends p now d refused =
      if-elim Ends (timeout_at (now + t.limits.shutdown_runtime) now c.force_work).ready
        (λ _. by_result (force_stop_runtime d) (force_stop_runtime-IsForcedRest d)) (λ _. tt)
    where
      at : ℕ
      at = (timeout_at (now + t.limits.shutdown_runtime) now c.force_work).at

      by_result :
          (f : Daemon × Result (Unit {0}) String)
          → IsForcedRest d f
          → Ends (elim f.1 [
            | err e ↦ record {
              ended_at = at;
              state = f.0;
              result = err (ServerError.force_failed e);
            }
            | ok _ ↦ close_storage c t handler server p at f.0
          ])
      by_result (d', err e) r = tt
      by_result (d', ok u) r =
          close_storage-Ends p at d' r.0 (λ h. absurd (ground (arith, h, refused)))

stop_runtime-Ends :
    (c : Closure) (t : ShutdownTimeline) (server : Option String) (drained : Drained)
    → EndsAtRest server
        (stop_runtime c t server drained).state
        (stop_runtime c t server drained).result
unfolding stop_runtime
stop_runtime-Ends c t server (now, d, handler) =
    let prepared = prepare_shutdown_until (runtime_deadline t now) now c.preparing d in
    let (at_rest, shut) = prepare-IsPrepared (runtime_deadline t now) now c.preparing d in
    if-elim (Ends c t handler server) prepared.2.runtime_quiescent
      (λ quiet.
        close_storage-Ends c t handler server prepared.2 prepared.0 prepared.1 (at_rest quiet)
          (λ accepted. (shut accepted).1))
      (λ loud.
        force_runtime-Ends c t handler server prepared.2 prepared.0 prepared.1
          (ground (arith, loud, λ (h : prepared.2.response.accepted ≡ true). (shut h).0)))

-- Whatever the handlers, the system and the clock do: a daemon that ends well, or with any error but
-- one of the forced stop, owns no Caddy process any more and shows an idle runtime. If it ends well,
-- its loop did not end by a failure, and no mutation can begin after it.
pub shut_down-EndsAtRest :
    (c : Closure) (limits : IpcLimits) (server : Option String) (now : ℕ) (d : Daemon)
    → let e = shut_down c limits server now d in EndsAtRest server e.state e.result
unfolding shut_down
shut_down-EndsAtRest c limits server now d =
    stop_runtime-Ends c (timeline limits now d) server
      (drain_handlers c (timeline limits now d) now (begin_operation_drain d))
