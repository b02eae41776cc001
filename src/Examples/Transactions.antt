-- ===== src/Examples/Transactions.antt =====
-- Registration transactions over the mock runtime.
use cadder.Base.{◌≡◌, refl, false, [], ◌∷◌, ok}
use cadder.Caddy.Coordinator.{new_coordinator}
use cadder.Daemon.{Task}
use cadder.Daemon.Interleaving.{revokes}
use cadder.Daemon.Transaction.{
  RegistrationTransaction, fenced, Schedule, execute_registration_transaction,
}
use cadder.Daemon.Transaction.Completion.{execute_completes}
use cadder.Daemon.Transaction.Ending.{IsPublished, IsGivenUp, execute_failed, execute_published}
use cadder.Examples.{env, calm, shop, fresh}
use cadder.Fence.{CommitRejection, CommitPermitState}
use cadder.Fence.Laws.{MayCommit}
use cadder.Runtime.Mock.{MockState, begin_apply_config, accept_apply, rollback_apply}
use cadder.Runtime.Mock.Laws.{mock_runtime, mock-Serving}

abbrev task : Task MockState
task = record {
  state = fresh;
  fence = record { epoch = 0; permit = CommitPermitState.active; cancelled = false };
}

abbrev candidate : RegistrationTransaction
candidate = record { coordinator = new_coordinator; registrations = ("shop", shop) ∷ [] }

-- The deadline comes while Caddy works.
abbrev late : Schedule
late = record calm { applying = revokes ∷ [] }

abbrev published : Task MockState
published = (execute_registration_transaction mock_runtime env calm candidate task).0

abbrev undone : Task MockState
undone = (execute_registration_transaction mock_runtime env late candidate task).0

execute_published_example : IsPublished mock-Serving env candidate task published
unfolding execute_registration_transaction begin_apply_config accept_apply
execute_published_example = execute_published mock-Serving env calm candidate task published tt refl

execute_failed_example : IsGivenUp mock-Serving env candidate task.state undone.state
unfolding execute_registration_transaction begin_apply_config accept_apply rollback_apply
execute_failed_example =
    execute_failed mock-Serving env late candidate task undone (fenced CommitRejection.revoked) refl

task-MayCommit : MayCommit task.state.lifecycle task.fence
task-MayCommit = record { current = refl; running = refl; permitted = refl }

execute_completes_example :
    (execute_registration_transaction mock_runtime env
      (record calm { composing = []; applying = [] })
      candidate
      task).1
    ≡ ok tt
execute_completes_example = execute_completes env calm candidate task task-MayCommit refl refl
