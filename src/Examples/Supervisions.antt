-- ===== src/Examples/Supervisions.antt =====
-- The supervision of a mutation whose deadline passes.
use cadder.Base.{ℕ, ◌≡◌, ◌≢◌, ◌≤◌, refl, true, false, any, [], ◌∷◌, ok}
use cadder.Fence.{OperationFence, CommitPermitState, issue, begin_final_commit}
use cadder.Fence.Histories.{begins, finishes, run, start}
use cadder.Ipc.Control.{ConnectionAction}
use cadder.Ipc.Supervision.{Selected, First, Meeting, Reply, supervise_owned_mutation_request}
use cadder.Ipc.Supervision.Honesty.{supervise_denied, supervise_answers}
use cadder.Ipc.Supervision.Replies.{denies, answers}

abbrev fence : OperationFence
fence = record { epoch = 0; permit = CommitPermitState.active; cancelled = false }

-- The deadline passes while the worker has begun its final commit.
abbrev committing : Meeting ℕ
committing = record {
  decoded = ok tt;
  guarded = true;
  spawned = true;
  until_first = begins ∷ [];
  first = First.selected Selected.timeout;
  until_next = [];
  next = Selected.timeout;
  in_time = false;
  until_worker = finishes ∷ [];
  awaited = ok (ok 7);
  read_more = false;
  write = λ reply. ok tt;
}

-- The deadline passes before that.
abbrev late_worker : Meeting ℕ
late_worker = record committing { until_first = [] }

supervise_denied_example :
    (run
      (supervise_owned_mutation_request late_worker (start fence)).0
      (begins ∷ finishes ∷ [])).effects
    ≡ 0
unfolding issue supervise_owned_mutation_request
supervise_denied_example = supervise_denied late_worker fence (begins ∷ finishes ∷ []) refl refl

supervise_answers_example :
    let (r, said) = supervise_owned_mutation_request committing (start fence) in
    (answers said.replies ≤ 1)
    × ((a : ConnectionAction)
        → said.action ≡ ok a
        → r.effects ≢ 0
        → (answers said.replies ≡ 1) × (any denies said.replies ≡ false))
unfolding issue
supervise_answers_example = supervise_answers committing fence refl

-- The commit took effect, and the client has its response.
committed :
    (supervise_owned_mutation_request committing (start fence)).1.replies ≡ Reply.response 7 ∷ []
unfolding supervise_owned_mutation_request begin_final_commit
committed = refl
