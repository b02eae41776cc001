-- ===== src/Daemon/Deadlines/Times.antt =====
-- When the operations with a deadline return.
use cadder.Base.{ℕ, ◌+◌, ◌≤◌, String, Result, max, arith, if-elim}
use cadder.Daemon.Deadlines.{
  Daemon, timeout_at, Preparing, Prepared, after_stop, prepare_shutdown_until,
  shutdown_storage_until,
}

pub timeout_at-le : (deadline now work : ℕ) → (timeout_at deadline now work).at ≤ max now deadline
unfolding timeout_at
timeout_at-le deadline now work = ground arith

pub prepare-le :
    (deadline now : ℕ) (p : Preparing) (d : Daemon)
    → (prepare_shutdown_until deadline now p d).0 ≤ max now deadline + p.stop_work
unfolding prepare_shutdown_until after_stop
prepare-le deadline now p d =
    let operation = timeout_at deadline now p.operation_work in
    let coordinator = timeout_at deadline operation.at p.coordinator_work in
    let first = timeout_at-le deadline now p.operation_work in
    let second = timeout_at-le deadline operation.at p.coordinator_work in
    if-elim (λ (r : Prepared). r.0 ≤ max now deadline + p.stop_work) operation.ready
      (λ _.
        if-elim (λ (r : Prepared). r.0 ≤ max now deadline + p.stop_work) coordinator.ready
          (λ _. omega arith) (λ _. omega arith))
      (λ _. omega arith)

pub storage-le :
    (deadline now work : ℕ) (closed : Result (Unit {0}) String) (d : Daemon)
    → (shutdown_storage_until deadline now work closed d).0 ≤ max now deadline
unfolding shutdown_storage_until
storage-le deadline now work closed d = ground (arith, timeout_at-le deadline now work)
