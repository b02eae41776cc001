-- ===== src/Runtime/Process/Stop/Confirmed.antt =====
-- `stop_until` of crates/cadder-daemon/src/runtime/process.rs by the answers of the system that it reads.
use cadder.Base.{
  String, ◌≡◌, refl, sym, subst, ◌⊎◌, inl, inr, Bool, true, false, Option, none, some, List, Result,
  ok, err, arith,
}
use cadder.Runtime.Process.Stop.{
  ChildStop, gone, kept, after_kill_wait, after_start_kill, after_stop_wait, request_wait,
  request_graceful_stop, request_error, after_verify, stop_child, stop_owned, join_logs,
  after_child, after_lock, stop_until,
}
use cadder.Protocol.State.{idle_runtime}
use cadder.Runtime.Process.Holding.{Held, held}
use cadder.Runtime.Process.Stop.Laws.{
  IsChildStop, stop_owned-IsChildStop, IsStopped, stop_until-IsStopped,
}
use cadder.Runtime.Process.World.{
  Answer, done, fails, fails_late, times_out, exits, OwnedRuntimeProcess, Process, alive, status_of,
  Waited, joined, broken, elapsed, waited, completed, answer, answered, head_answer, tail,
  with_snapshot,
}

-- An answer to a wait by which the child has exited.
abbrev ends_wait : Answer → Bool
ends_wait done = true
ends_wait (exits status) = true
ends_wait _ = false

-- An answer ends a wait, and the others are left.
abbrev Ends : List Answer → List Answer → Type 0
Ends before after = (ends_wait (head_answer before) ≡ true) × (after ≡ tail before)

-- The wait for the child ends; or it is late, the kill is answered, and the second wait ends.
abbrev Joined : List Answer → List Answer → Type 0
Joined before after =
    Ends before after ⊎ ((head_answer before ≡ times_out) × Ends (tail (tail before)) after)

-- What is left of the answers after the wait for the helper, which is killed and joined if it is late;
abbrev left_by_helper : Answer → List Answer → List Answer
left_by_helper times_out rest = elim (completed (head_answer rest)) [
  | ok _ ↦ tail (tail rest)
  | err _ ↦ tail rest
]
left_by_helper _ rest = rest

-- after the helper's spawn;
abbrev left_by_request : List Answer → List Answer
left_by_request before = elim (completed (head_answer before)) [
  | ok _ ↦ left_by_helper (head_answer (tail before)) (tail (tail before))
  | err _ ↦ tail before
]

-- and after the verification of the image, without which no helper is run.
abbrev left_by_verify : List Answer → List Answer
left_by_verify before = elim (completed (head_answer before)) [
  | ok _ ↦ left_by_request (tail before)
  | err _ ↦ tail before
]

-- The state of the child is read as exited; or it is read, the stop is requested, and the child is
-- joined.
abbrev pub ExitRead : List Answer → List Answer → Type 0
ExitRead before after =
    ((status : String) × (head_answer before ≡ exits status) × (after ≡ tail before))
    ⊎ Joined (left_by_verify (tail before)) after

abbrev Ended : List Answer → Process × ChildStop → Type 0
Ended before (m, gone e) = Ends before m.runtime.answers
Ended before (m, kept e) = Unit

abbrev Confirms : List Answer → Process × ChildStop → Type 0
Confirms before (m, gone e) = Joined before m.runtime.answers
Confirms before (m, kept e) = Unit

Confirms-late :
    (before : List Answer) (p : Process × ChildStop)
    → head_answer before ≡ times_out
    → Ended (tail (tail before)) p
    → Confirms before p
Confirms-late before (m, gone e) late h = inr (late, h)
Confirms-late before (m, kept e) late h = tt

ends_wait-answer :
    (a : Answer) (before : List Answer)
    → head_answer before ≡ a
    → ends_wait a ≡ true
    → ends_wait (head_answer before) ≡ true
ends_wait-answer a before h = subst (λ a. ends_wait a ≡ true) (sym h)

after_kill_wait-Ended :
    (e : Option String) (a : Answer) (m : Process) (before : List Answer)
    → head_answer before ≡ a
    → m.runtime.answers ≡ tail before
    → Ended before (after_kill_wait e (waited a) m)
unfolding after_kill_wait
after_kill_wait-Ended e done m before h rest = (ends_wait-answer done before h refl, rest)
after_kill_wait-Ended e (exits status) m before h rest =
    (ends_wait-answer (exits status) before h refl, rest)
after_kill_wait-Ended e (fails b) m before h rest = tt
after_kill_wait-Ended e (fails_late b) m before h rest = tt
after_kill_wait-Ended e times_out m before h rest = tt

after_start_kill-Ended :
    (e : Option String) (r : Result (Unit {0}) String) (m : Process)
    → Ended m.runtime.answers (after_start_kill e r m)
unfolding after_start_kill
after_start_kill-Ended e (err b) m = tt
after_start_kill-Ended e (ok u) m =
    after_kill_wait-Ended e (answer m) (answered m) m.runtime.answers refl refl

after_stop_wait-Confirms :
    (e : Option String) (a : Answer) (m : Process) (before : List Answer)
    → head_answer before ≡ a
    → m.runtime.answers ≡ tail before
    → Confirms before (after_stop_wait e (waited a) m)
unfolding after_stop_wait
after_stop_wait-Confirms e done m before h rest = inl (ends_wait-answer done before h refl, rest)
after_stop_wait-Confirms e (exits status) m before h rest =
    inl (ends_wait-answer (exits status) before h refl, rest)
after_stop_wait-Confirms e (fails b) m before h rest = tt
after_stop_wait-Confirms e (fails_late b) m before h rest = tt
after_stop_wait-Confirms e times_out m before h rest =
    let p = after_start_kill e (completed (answer m)) (answered m) in
    Confirms-late before p h (
      subst (λ as'. Ended (tail as') p) rest
        (after_start_kill-Ended e (completed (answer m)) (answered m)))

request_wait-left :
    (a : Answer) (m : Process)
    → (request_wait a m).0.runtime.answers ≡ left_by_helper a m.runtime.answers
unfolding request_wait
request_wait-left done m = refl
request_wait-left (exits status) m = refl
request_wait-left (fails e) m = refl
request_wait-left (fails_late e) m = refl
request_wait-left times_out m = ground arith

request_graceful_stop-left :
    (m : Process) → (request_graceful_stop m).0.runtime.answers ≡ left_by_request m.runtime.answers
unfolding request_graceful_stop
request_graceful_stop-left m =
    ground (arith, request_wait-left (answer (answered m)) (answered (answered m)))

after_verify-Confirms :
    (r : Result (Unit {0}) String) (m : Process)
    → Confirms
        (elim r [ ok _ ↦ left_by_request m.runtime.answers | err _ ↦ m.runtime.answers ])
        (after_verify r m)
unfolding after_verify
after_verify-Confirms (err e) m =
    after_stop_wait-Confirms (some e) (answer m) (answered m) m.runtime.answers refl refl
after_verify-Confirms (ok u) m =
    let asked = request_graceful_stop m in
    subst (λ as'. Confirms as' (after_verify (ok u) m)) (request_graceful_stop-left m)
      (after_stop_wait-Confirms (request_error asked.1) (answer asked.0) (answered asked.0)
        asked.0.runtime.answers refl refl)

-- A child that is given up was read as exited, or joined.
abbrev GivesUp : List Answer → Process × ChildStop → Type 0
GivesUp before (m, gone e) = ExitRead before m.runtime.answers
GivesUp before (m, kept e) = Unit

GivesUp-joined :
    (before : List Answer) (p : Process × ChildStop)
    → Confirms (left_by_verify (tail before)) p
    → GivesUp before p
GivesUp-joined before (m, gone e) h = inr h
GivesUp-joined before (m, kept e) h = tt

stop_child-GivesUp :
    (a : Answer) (m : Process)
    → answer m ≡ a
    → GivesUp m.runtime.answers (stop_child (status_of a) (answered m))
unfolding stop_child
stop_child-GivesUp (exits status) m h = inl (status, h, refl)
stop_child-GivesUp (fails e) m h = tt
stop_child-GivesUp (fails_late e) m h = tt
stop_child-GivesUp done m h =
    let asked = answered m in
    GivesUp-joined m.runtime.answers (stop_child alive asked)
      (after_verify-Confirms (completed (answer asked)) (answered asked))
stop_child-GivesUp times_out m h =
    let asked = answered m in
    GivesUp-joined m.runtime.answers (stop_child alive asked)
      (after_verify-Confirms (completed (answer asked)) (answered asked))

-- Nothing of the child is given up, or it is known to have exited; the readers are joined after that.
abbrev pub IsConfirmed : List Answer → Option OwnedRuntimeProcess → Process → Type 0
IsConfirmed before c m =
    (m.runtime.child ≡ c)
    ⊎ ((after : List Answer) × ExitRead before after × (m.runtime.answers ≡ tail after))

join_logs-IsConfirmed :
    (before : List Answer) (c : Option OwnedRuntimeProcess) (e : Option String) (w : Waited)
    (m : Process)
    → IsConfirmed before c m
    → IsConfirmed before c (join_logs e w m).0
unfolding join_logs
join_logs-IsConfirmed before c e elapsed m h = h
join_logs-IsConfirmed before c e joined m h = h
join_logs-IsConfirmed before c e (broken b) m h = h

after_child-IsConfirmed :
    (before : List Answer) (h : Held) (p : Process × ChildStop)
    → GivesUp before p
    → IsChildStop h p
    → IsConfirmed before h.2 (after_child p).0
unfolding after_child
after_child-IsConfirmed before h (m, kept e) g k = inl (subst (λ h'. m.runtime.child ≡ h'.2) k refl)
after_child-IsConfirmed before h (m, gone e) g k =
    let idle = with_snapshot idle_runtime m in
    join_logs-IsConfirmed before h.2 e (waited (answer idle)) (answered idle)
      (inr (m.runtime.answers, g, refl))

stop_owned-IsConfirmed :
    (c : Option OwnedRuntimeProcess) (m : Process)
    → m.runtime.child ≡ c
    → IsConfirmed m.runtime.answers m.runtime.child (after_child (stop_owned c m)).0
unfolding stop_owned after_child
stop_owned-IsConfirmed none m h =
    let idle = with_snapshot idle_runtime m in
    join_logs-IsConfirmed m.runtime.answers m.runtime.child none (waited (answer idle))
      (answered idle) (inl refl)
stop_owned-IsConfirmed (some owned) m h =
    after_child-IsConfirmed m.runtime.answers (held m) (stop_owned (some owned) m)
      (stop_child-GivesUp (answer m) m refl) (stop_owned-IsChildStop (some owned) m h)

after_lock-IsConfirmed :
    (w : Waited) (m : Process) → IsConfirmed m.runtime.answers m.runtime.child (after_lock w m).0
unfolding after_lock
after_lock-IsConfirmed elapsed m = inl refl
after_lock-IsConfirmed joined m = stop_owned-IsConfirmed m.runtime.child m refl
after_lock-IsConfirmed (broken b) m = stop_owned-IsConfirmed m.runtime.child m refl

-- A bounded stop never gives up a child that may still run. Either the child is owned as before, or
-- the answers read after the one for the lock of the child show that it exited: its state was read as
-- exited; or, after the verification and the request to stop, the wait for it ended, or was late and
-- the wait after its kill ended. Only the log readers were waited for after that. A stop that reports
-- rest leaves no child and shows an idle runtime; one that does not has an error, and keeps the child
-- or has given it up with the runtime idle. The file of the configuration is never touched.
pub stop_until-Confirms :
    (m : Process)
    → IsStopped (held m) (stop_until m)
      × IsConfirmed (tail m.runtime.answers) m.runtime.child (stop_until m).0
unfolding stop_until
stop_until-Confirms m =
    (stop_until-IsStopped m, after_lock-IsConfirmed (waited (answer m)) (answered m))
