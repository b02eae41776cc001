-- ===== src/Runtime/Process/Stop/Forced.antt =====
-- A stop that is forced, and the stop that falls back to it.
use cadder.Base.{
  String, ◌≡◌, refl, ◌⊎◌, inl, inr, Bool, true, false, Option, none, some, Result, ok, err, subst,
  if◌then◌else◌, arith,
}
use cadder.Protocol.State.{idle_runtime}
use cadder.Runtime.Process.World.{
  OwnedRuntimeProcess, Process, Status, alive, exited, unreadable, status_of, completed, answer,
  answered, with_child, with_snapshot,
}
use cadder.Runtime.Process.Stop.{
  RuntimeStopOutcome, stop_until, force_finish, force_terminated, terminate_and_join, force_child,
  force_owned, force_stop, after_attempt, stop,
}
use cadder.Runtime.Process.Holding.{Held, held, IsKept, IsGone, Keeps}
use cadder.Runtime.Process.Stop.Laws.{Ended, IsStopped, stop_until-IsStopped}

-- After a forced stop without error the child is gone; after one with an error it may be owned still.
abbrev pub IsForced : Held → Process × Result (Unit {0}) String → Type 0
IsForced h (m, ok u) = IsGone h m × (m.runtime.snapshot ≡ idle_runtime)
IsForced h (m, err e) = IsKept h m ⊎ IsGone h m

force_finish-IsForced : (m : Process) → IsForced (held m) (force_finish m)
unfolding force_finish
force_finish-IsForced m = by_result (completed (answer m))
  where
    by_result :
        (r : Result (Unit {0}) String)
        → IsForced (held m) (answered (with_snapshot idle_runtime (with_child none m)), r)
    by_result (ok u) = (refl, refl)
    by_result (err e) = inr refl

terminate_and_join-Keeps : Keeps terminate_and_join
unfolding terminate_and_join
terminate_and_join-Keeps m = ground arith

force_terminated-IsForced :
    (r : Result (Unit {0}) String) (m : Process) → IsForced (held m) (force_terminated r m)
unfolding force_terminated
force_terminated-IsForced (ok u) m = force_finish-IsForced m
force_terminated-IsForced (err e) m = inl refl

force_child-IsForced : (s : Status) (m : Process) → IsForced (held m) (force_child s m)
unfolding force_child
force_child-IsForced (exited status) m = force_finish-IsForced m
force_child-IsForced (unreadable e) m = inl refl
force_child-IsForced alive m =
    subst (λ h. IsForced h (force_child alive m)) (terminate_and_join-Keeps m)
      (force_terminated-IsForced (terminate_and_join m).1 (terminate_and_join m).0)

pub force_stop-IsForced : (m : Process) → IsForced (held m) (force_stop m)
unfolding force_stop force_owned
force_stop-IsForced m = by_child m.runtime.child
  where
    by_child : (c : Option OwnedRuntimeProcess) → IsForced (held m) (force_owned c m)
    by_child none = force_finish-IsForced m
    by_child (some owned) = force_child-IsForced (status_of (answer m)) (answered m)

-- From a state that kept or lost the child.
IsForced-from :
    (h k : Held) (p : Process × Result (Unit {0}) String)
    → (k ≡ h) ⊎ (k ≡ (h.0, h.1, none))
    → IsForced k p
    → IsForced h p
IsForced-from h k p (inl e) f = subst (λ i. IsForced i p) e f
IsForced-from h k p (inr e) f = lost p (subst (λ i. IsForced i p) e f)
  where
    lost : (p : Process × Result (Unit {0}) String) → IsForced (h.0, h.1, none) p → IsForced h p
    lost (m, ok u) g = g
    lost (m, err x) (inl g) = inr g
    lost (m, err x) (inr g) = inr g

after_attempt-IsForced :
    (h : Held) (p : Process × RuntimeStopOutcome) → IsStopped h p → IsForced h (after_attempt p)
unfolding after_attempt
after_attempt-IsForced h (m, o) s = by_outcome o.quiescent o.result s
  where
    forced :
        (e : String) (p : Process × Result (Unit {0}) String)
        → IsForced h p
        → IsForced h (elim p.1 [ ok _ ↦ (p.0, err e) | err e' ↦ (p.0, err e') ])
    forced e (f, err e') g = g
    forced e (f, ok u) g = inr g.0

    by_outcome :
        (b : Bool) (r : Result (Unit {0}) String)
        → Ended h b r m
        → IsForced h (
            if b then (m, r) else (elim (force_stop m).1 [
              | ok _ ↦ ((force_stop m).0, r)
              | err e ↦ ((force_stop m).0, err e)
            ]))
    by_outcome true (ok u) s = s
    by_outcome true (err e) s = inr s.0
    by_outcome false (ok u) s = absurd s
    by_outcome false (err e) (inl same) =
        forced e (force_stop m)
          (IsForced-from h (held m) (force_stop m) (inl same) (force_stop-IsForced m))
    by_outcome false (err e) (inr (lost, idle)) =
        forced e (force_stop m)
          (IsForced-from h (held m) (force_stop m) (inr lost) (force_stop-IsForced m))

-- A stop that succeeds leaves no child and an idle runtime; one that fails leaves the child owned or
-- gone. Neither touches the configuration's file.
pub stop-IsForced : (m : Process) → IsForced (held m) (stop m)
unfolding stop
stop-IsForced m = after_attempt-IsForced (held m) (stop_until m) (stop_until-IsStopped m)
