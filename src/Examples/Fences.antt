-- ===== src/Examples/Fences.antt =====
-- Operation fences.
use cadder.Base.{◌≡◌, refl, ◌≤◌, true, false, List, [], ◌∷◌}
use cadder.Fence.{CommitPermitState, OperationFence, issue}
use cadder.Fence.Histories.{Call, drain, revoke, begins, finishes, run, start, run-effects}

abbrev pub fence : OperationFence
fence = record { epoch = 0; permit = CommitPermitState.active; cancelled = false }

abbrev calls : List Call
calls = begins ∷ revoke ∷ drain ∷ finishes ∷ begins ∷ []

run-effects_example :
    ((run (start fence) calls).effects ≤ 1)
    × ((run (start fence) calls).timed_out ≡ true → (run (start fence) calls).effects ≡ 0)
unfolding issue
run-effects_example = run-effects fence calls refl
