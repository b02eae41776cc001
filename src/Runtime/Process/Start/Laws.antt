-- ===== src/Runtime/Process/Start/Laws.antt =====
-- What a start, a reload and an inspection of the Caddy process do to what the runtime holds.
use cadder.Base.{
  ℕ, String, ◌≡◌, refl, ◌⊎◌, inl, inr, Bool, true, false, Option, none, some, List, Result, ok, err,
  arith,
}
use cadder.Runtime.{LogEnv}
use cadder.Runtime.Process.Holding.{Held, held, IsKept, IsGone, OnOk, OnOk-then, OnErr, call-IsKept}
use cadder.Runtime.Process.Start.{
  spawn, start_check, initial_config, verified, wait_for_initial_config, started, start_process,
  start_owning, start, taking, submitted, submit_reload, reload_logged, reload, running_by,
  running_owned, runtime_is_running,
}
use cadder.Runtime.Process.World.{
  Answer, done, fails, fails_late, times_out, exits, OwnedRuntimeProcess, Process, Call, ◌>>=◌,
  ◌>>◌, Status, alive, exited, unreadable, status_of, answer, answered, completed, call,
}

-- A started child has the pinned image and the configuration that it was started with.
abbrev pub IsStarted : List ℕ → Held → Process → Type 0
IsStarted config h m =
    (process_id : Option ℕ) × (held m
      ≡ (h.0, h.1, some (record { binary = h.1.path; process_id = process_id; config = config })))

spawn-IsKept : (m : Process) → OnOk (λ _ m'. IsKept (held m) m') (spawn m)
unfolding spawn
spawn-IsKept m = ground arith

start_check-IsKept :
    (s : Status) (m : Process) → OnOk (λ _ m'. IsKept (held m) m') (start_check s m)
unfolding start_check
start_check-IsKept alive m = refl
start_check-IsKept (exited status) m = tt
start_check-IsKept (unreadable e) m = tt

initial-IsKept : (m : Process) → OnOk (λ _ m'. IsKept (held m) m') (wait_for_initial_config m)
unfolding wait_for_initial_config verified initial_config
initial-IsKept m = by_answer (answer m)
  where
    by_answer :
        (a : Answer) → OnOk (λ _ m'. IsKept (held m) m') (verified (initial_config a (answered m)))
    by_answer done = refl
    by_answer (exits status) = tt
    by_answer (fails e) = tt
    by_answer (fails_late e) = tt
    by_answer times_out = tt

start_process-IsStarted :
    (l : LogEnv) (config : List ℕ) (m : Process)
    → OnOk (λ _ m'. IsStarted config (held m) m') (start_process l config m)
unfolding start_process started
start_process-IsStarted l config m =
    OnOk-then (λ h _ m'. IsStarted config h m') call
      (λ _. do
        process_id ← spawn
        λ m. start_check (status_of (answer m)) (answered m)
        wait_for_initial_config
        λ m. (started l config process_id m, ok tt))
      m (call-IsKept m)
      (λ _ m₁.
        OnOk-then (λ h _ m'. IsStarted config h m') spawn
          (λ process_id. do
            λ m. start_check (status_of (answer m)) (answered m)
            wait_for_initial_config
            λ m. (started l config process_id m, ok tt))
          m₁ (spawn-IsKept m₁)
          (λ process_id m₂.
            OnOk-then (λ h _ m'. IsStarted config h m')
              (λ m. start_check (status_of (answer m)) (answered m))
              (λ _. do wait_for_initial_config; λ m. (started l config process_id m, ok tt)) m₂
              (start_check-IsKept (status_of (answer m₂)) (answered m₂))
              (λ _ m₃.
                OnOk-then (λ h _ m'. IsStarted config h m') wait_for_initial_config
                  (λ _ m. (started l config process_id m, ok tt)) m₃ (initial-IsKept m₃)
                  (λ _ m₄. (process_id, refl)))))

pub start_lem :
    (l : LogEnv) (config : List ℕ) (m : Process)
    → OnOk (λ _ m'. IsStarted config (held m) m') (start l config m)
unfolding start
start_lem l config m = by_child m.runtime.child
  where
    by_child :
        (c : Option OwnedRuntimeProcess)
        → OnOk (λ _ m'. IsStarted config (held m) m') (start_owning c l config m)
    by_child none = unfold start_owning in start_process-IsStarted l config m
    by_child (some owned) = unfold start_owning in tt

abbrev pub IsTaken : List ℕ → Held → Process → Type 0
IsTaken config h m = held m ≡ (h.0, h.1, taking config h.2)

-- A reload that succeeds has given Caddy the configuration; one that fails may have.
abbrev pub IsReloaded : List ℕ → Held → Process × Result (Unit {0}) String → Type 0
IsReloaded config h (m, ok u) = IsTaken config h m
IsReloaded config h (m, err e) = IsKept h m ⊎ IsTaken config h m

submitted-IsReloaded :
    (config : List ℕ) (a : Answer) (m : Process) → IsReloaded config (held m) (submitted config a m)
unfolding submitted
submitted-IsReloaded config done m = refl
submitted-IsReloaded config (fails_late e) m = inr refl
submitted-IsReloaded config (exits status) m = inl refl
submitted-IsReloaded config (fails e) m = inl refl
submitted-IsReloaded config times_out m = inl refl

after_call-IsReloaded :
    (config : List ℕ) (f : Call (Unit {0})) (m : Process)
    → IsReloaded config (held m) (f (answered m))
    → IsReloaded config (held m) ((do call; f) m)
after_call-IsReloaded config f m h = by_answer (completed (answer m))
  where
    by_answer :
        (r : Result (Unit {0}) String)
        → IsReloaded config
            (held m)
            (elim r [ ok a ↦ f (answered m) | err e ↦ (answered m, err e) ])
    by_answer (ok u) = h
    by_answer (err e) = inl refl

reload_logged-IsReloaded :
    (l : LogEnv) (config : List ℕ) (h : Held) (p : Process × Result (Unit {0}) String)
    → IsReloaded config h p
    → IsReloaded config h (reload_logged l p)
unfolding reload_logged
reload_logged-IsReloaded l config h (m, ok u) r = r
reload_logged-IsReloaded l config h (m, err e) r = r

pub reload-IsReloaded :
    (l : LogEnv) (config : List ℕ) (m : Process) → IsReloaded config (held m) (reload l config m)
unfolding reload submit_reload
reload-IsReloaded l config m =
    after_call-IsReloaded config (λ m. reload_logged l (submit_reload config m)) m
      (reload_logged-IsReloaded l config (held m) (submit_reload config (answered m)) (
        after_call-IsReloaded config (λ m. submitted config (answer m) (answered m)) (answered m)
          (submitted-IsReloaded config (answer (answered (answered m)))
            (answered (answered (answered m))))))

-- A child is found running, or is forgotten.
abbrev pub IsFound : Held → Bool → Process → Type 0
IsFound h true m = IsKept h m × ((c : OwnedRuntimeProcess) × (h.2 ≡ some c))
IsFound h false m = IsGone h m

running_by-IsFound :
    (l : LogEnv) (s : Status) (m : Process) (c : OwnedRuntimeProcess)
    → m.runtime.child ≡ some c
    → OnOk (IsFound (held m)) (running_by l s m)
unfolding running_by
running_by-IsFound l alive m c h = (refl, (c, h))
running_by-IsFound l (exited status) m c h = refl
running_by-IsFound l (unreadable e) m c h = tt

pub runtime_is_running-IsFound :
    (l : LogEnv) (m : Process) → OnOk (IsFound (held m)) (runtime_is_running l m)
unfolding runtime_is_running
runtime_is_running-IsFound l m = by_child m.runtime.child refl
  where
    by_child :
        (c : Option OwnedRuntimeProcess)
        → m.runtime.child ≡ c
        → OnOk (IsFound (held m)) (running_owned l c m)
    by_child none h = unfold running_owned in ground (arith, h)
    by_child (some c) h =
        unfold running_owned in running_by-IsFound l (status_of (answer m)) (answered m) c h

pub runtime_is_running_refused :
    (l : LogEnv) (m : Process) → OnErr (IsKept (held m)) (runtime_is_running l m)
unfolding runtime_is_running running_owned running_by
runtime_is_running_refused l m = by_child m.runtime.child
  where
    by_status : (s : Status) → OnErr (IsKept (held m)) (running_by l s (answered m))
    by_status alive = tt
    by_status (exited status) = tt
    by_status (unreadable e) = refl

    by_child : (c : Option OwnedRuntimeProcess) → OnErr (IsKept (held m)) (running_owned l c m)
    by_child none = tt
    by_child (some c) = by_status (status_of (answer m))
