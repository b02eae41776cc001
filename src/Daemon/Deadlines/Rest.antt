-- ===== src/Daemon/Deadlines/Rest.antt =====
-- What a stop before a deadline, or one that is forced, leaves of the runtime.
use cadder.Base.{
  ◌+◌, ℕ, String, ◌≡◌, refl, Bool, true, false, none, Result, ok, err, arith, if-elim,
}
use cadder.Daemon.Closing.{finish_shutdown}
use cadder.Daemon.Deadlines.{
  Daemon, timeout_at, machine, Preparing, Prepared, after_stop, prepare_shutdown_until,
  force_stop_runtime,
}
use cadder.Daemon.Shutdown.{begin_operation_drain}
use cadder.Fence.{CommitRejection, issue, begin_drain}
use cadder.Protocol.State.{idle_runtime}
use cadder.Runtime.Process.Holding.{Held, held}
use cadder.Runtime.Process.Stop.{RuntimeStopOutcome, stop_until, force_stop}
use cadder.Runtime.Process.Stop.Laws.{Ended, IsStopped, stop_until-IsStopped}
use cadder.Runtime.Process.Stop.Forced.{IsForced, force_stop-IsForced}
use cadder.Runtime.Process.World.{Process}

-- The daemon owns no Caddy process, and shows an idle runtime.
abbrev pub IsAtRest : Daemon → Type 0
IsAtRest d = (d.runtime.child ≡ none) × (d.runtime.snapshot ≡ idle_runtime)

-- A preparation that has come to rest has; and one that is accepted has, and lets no mutation begin.
abbrev pub IsPrepared : Prepared → Type 0
IsPrepared (at, d, p) =
    (p.runtime_quiescent ≡ true → IsAtRest d)
    × (p.response.accepted ≡ true
        → (p.runtime_quiescent ≡ true) × (issue d.lifecycle ≡ err CommitRejection.draining))

begin_operation_drain-issue :
    (d : Daemon) → issue (begin_operation_drain d).lifecycle ≡ err CommitRejection.draining
unfolding begin_operation_drain issue begin_drain
begin_operation_drain-issue d = ground arith

Ended-IsPrepared :
    (at : ℕ) (d : Daemon) (h : Held) (m : Process) (q : Bool) (r : Result (Unit {0}) String)
    → Ended h q r m
    → IsPrepared (after_stop at d (m, record { result = r; quiescent = q }))
unfolding after_stop finish_shutdown begin_operation_drain
Ended-IsPrepared at d h m true (ok u) (g, i) =
    (λ _. (cc g, i), λ _. (refl, begin_operation_drain-issue d))
Ended-IsPrepared at d h m true (err e) (g, i) = (λ _. (cc g, i), λ e. cc e)
Ended-IsPrepared at d h m false (ok u) s = absurd s
Ended-IsPrepared at d h m false (err e) s = (λ e. cc e, λ e. cc e)

after_stop-IsPrepared :
    (at : ℕ) (d : Daemon) (h : Held) (p : Process × RuntimeStopOutcome)
    → IsStopped h p
    → IsPrepared (after_stop at d p)
unfolding after_stop
after_stop-IsPrepared at d h (m, o) s = Ended-IsPrepared at d h m o.quiescent o.result s

pub prepare-IsPrepared :
    (deadline now : ℕ) (p : Preparing) (d : Daemon)
    → IsPrepared (prepare_shutdown_until deadline now p d)
unfolding prepare_shutdown_until
prepare-IsPrepared deadline now p d =
    let operation = timeout_at deadline now p.operation_work in
    let coordinator = timeout_at deadline operation.at p.coordinator_work in
    if-elim IsPrepared operation.ready
      (λ _.
        if-elim IsPrepared coordinator.ready
          (λ _.
            after_stop-IsPrepared (coordinator.at + p.stop_work) d (held (machine d))
              (stop_until (machine d)) (stop_until-IsStopped (machine d)))
          (λ _. (λ h. cc h, λ h. cc h)))
      (λ _. (λ h. cc h, λ h. cc h))

-- A forced stop that succeeds has come to rest, and has changed the runtime alone.
abbrev pub IsForcedRest : Daemon → Daemon × Result (Unit {0}) String → Type 0
IsForcedRest d (d', ok u) = IsAtRest d' × (d'.lifecycle ≡ d.lifecycle)
IsForcedRest d (d', err e) = Unit {0}

pub force_stop_runtime-IsForcedRest : (d : Daemon) → IsForcedRest d (force_stop_runtime d)
unfolding force_stop_runtime
force_stop_runtime-IsForcedRest d =
    by_forced (force_stop (machine d)) (force_stop-IsForced (machine d))
  where
    by_forced :
        (p : Process × Result (Unit {0}) String)
        → IsForced (held (machine d)) p
        → IsForcedRest d (record d { runtime = p.0.runtime; logs = p.0.logs }, p.1)
    by_forced (m, ok u) (g, i) = ((cc g, i), refl)
    by_forced (m, err e) f = tt
