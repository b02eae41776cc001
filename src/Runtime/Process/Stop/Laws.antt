-- ===== src/Runtime/Process/Stop/Laws.antt =====
-- What a stop of the Caddy process leaves behind.
use cadder.Base.{
  String, ◌≡◌, refl, ◌⊎◌, inl, inr, Bool, true, false, Option, none, some, Result, ok, err, subst,
  arith,
}
use cadder.Protocol.State.{idle_runtime}
use cadder.Runtime.Process.World.{
  Answer, done, fails, fails_late, times_out, exits, OwnedRuntimeProcess, Process, Status, alive,
  exited, unreadable, status_of, Waited, joined, broken, elapsed, waited, completed, answer,
  answered, with_snapshot,
}
use cadder.Runtime.Process.Stop.{
  ChildStop, gone, kept, after_kill_wait, after_start_kill, after_stop_wait, request_wait,
  request_graceful_stop, request_error, after_verify, stop_child, stop_owned, RuntimeStopOutcome,
  join_logs, after_child, after_lock, stop_until,
}
use cadder.Runtime.Process.Holding.{Held, held, IsKept, IsGone, Keeps}

-- A child is given up only when it is gone, and is otherwise owned as it was.
abbrev pub IsChildStop : Held → Process × ChildStop → Type 0
IsChildStop h (m, gone e) = IsGone h m
IsChildStop h (m, kept e) = IsKept h m

after_kill_wait-IsChildStop :
    (e : Option String) (w : Waited) (m : Process) → IsChildStop (held m) (after_kill_wait e w m)
unfolding after_kill_wait
after_kill_wait-IsChildStop e joined m = refl
after_kill_wait-IsChildStop e (broken b) m = refl
after_kill_wait-IsChildStop e elapsed m = refl

after_start_kill-IsChildStop :
    (e : Option String) (r : Result (Unit {0}) String) (m : Process)
    → IsChildStop (held m) (after_start_kill e r m)
unfolding after_start_kill
after_start_kill-IsChildStop e (err b) m = refl
after_start_kill-IsChildStop e (ok u) m =
    after_kill_wait-IsChildStop e (waited (answer m)) (answered m)

after_stop_wait-IsChildStop :
    (e : Option String) (w : Waited) (m : Process) → IsChildStop (held m) (after_stop_wait e w m)
unfolding after_stop_wait
after_stop_wait-IsChildStop e joined m = refl
after_stop_wait-IsChildStop e (broken b) m = refl
after_stop_wait-IsChildStop e elapsed m =
    after_start_kill-IsChildStop e (completed (answer m)) (answered m)

request_wait-Keeps : (a : Answer) → Keeps (request_wait a)
unfolding request_wait
request_wait-Keeps done m = refl
request_wait-Keeps (exits status) m = refl
request_wait-Keeps (fails e) m = refl
request_wait-Keeps (fails_late e) m = refl
request_wait-Keeps times_out m = ground arith

request_graceful_stop-Keeps : Keeps request_graceful_stop
unfolding request_graceful_stop
request_graceful_stop-Keeps m =
    ground (arith, request_wait-Keeps (answer (answered m)) (answered (answered m)))

after_verify-IsChildStop :
    (r : Result (Unit {0}) String) (m : Process) → IsChildStop (held m) (after_verify r m)
unfolding after_verify
after_verify-IsChildStop (err e) m =
    after_stop_wait-IsChildStop (some e) (waited (answer m)) (answered m)
after_verify-IsChildStop (ok u) m =
    let asked = request_graceful_stop m in
    subst (λ h. IsChildStop h (after_verify (ok u) m)) (request_graceful_stop-Keeps m)
      (after_stop_wait-IsChildStop (request_error asked.1) (waited (answer asked.0))
        (answered asked.0))

stop_child-IsChildStop : (s : Status) (m : Process) → IsChildStop (held m) (stop_child s m)
unfolding stop_child
stop_child-IsChildStop (exited status) m = refl
stop_child-IsChildStop (unreadable e) m = refl
stop_child-IsChildStop alive m = after_verify-IsChildStop (completed (answer m)) (answered m)

pub stop_owned-IsChildStop :
    (c : Option OwnedRuntimeProcess) (m : Process)
    → m.runtime.child ≡ c
    → IsChildStop (held m) (stop_owned c m)
unfolding stop_owned
stop_owned-IsChildStop none m h = ground (arith, h)
stop_owned-IsChildStop (some owned) m h = stop_child-IsChildStop (status_of (answer m)) (answered m)

-- A stop that came to rest has no child and shows an idle runtime. One that did not has an error, and
-- owns the child as before, or has lost it and shows an idle runtime.
abbrev pub Ended : Held → Bool → Result (Unit {0}) String → Process → Type 0
Ended h true r m = IsGone h m × (m.runtime.snapshot ≡ idle_runtime)
Ended h false (ok u) m = ⊥
Ended h false (err e) m = IsKept h m ⊎ (IsGone h m × (m.runtime.snapshot ≡ idle_runtime))

abbrev pub IsStopped : Held → Process × RuntimeStopOutcome → Type 0
IsStopped h p = Ended h p.1.quiescent p.1.result p.0

join_logs-IsStopped :
    (h : Held) (e : Option String) (w : Waited) (m : Process)
    → IsGone h m
    → m.runtime.snapshot ≡ idle_runtime
    → IsStopped h (join_logs e w m)
unfolding join_logs
join_logs-IsStopped h e elapsed m g i = inr (g, i)
join_logs-IsStopped h e joined m g i = (g, i)
join_logs-IsStopped h e (broken b) m g i = (g, i)

after_child-IsStopped :
    (h : Held) (p : Process × ChildStop) → IsChildStop h p → IsStopped h (after_child p)
unfolding after_child
after_child-IsStopped h (m, kept e) k = inl k
after_child-IsStopped h (m, gone e) g =
    let idle = with_snapshot idle_runtime m in
    join_logs-IsStopped h e (waited (answer idle)) (answered idle) g refl

after_lock-IsStopped : (w : Waited) (m : Process) → IsStopped (held m) (after_lock w m)
unfolding after_lock
after_lock-IsStopped elapsed m = inl refl
after_lock-IsStopped joined m =
    after_child-IsStopped (held m) (stop_owned m.runtime.child m)
      (stop_owned-IsChildStop m.runtime.child m refl)
after_lock-IsStopped (broken b) m =
    after_child-IsStopped (held m) (stop_owned m.runtime.child m)
      (stop_owned-IsChildStop m.runtime.child m refl)

-- A stop that reports rest owns no child and shows an idle runtime; one that does not has an error, and
-- owns the child as before or has given it up with the runtime idle. The file is never touched.
pub stop_until-IsStopped : (m : Process) → IsStopped (held m) (stop_until m)
unfolding stop_until
stop_until-IsStopped m = after_lock-IsStopped (waited (answer m)) (answered m)
