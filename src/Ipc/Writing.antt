-- ===== src/Ipc/Writing.antt =====
-- `write_frame_with_deadlines` of crates/cadder-daemon/src/ipc/framing.rs. A round of its loop writes
-- at least one byte, so that the frame's length is fuel enough: `exhausted` is the model's own.
pub mod Complete
use cadder.Base.{
  ℕ, zero, suc, String, Bool, true, false, List, [], ◌∷◌, ◌++◌, Result, ok, err, take, drop, length,
  ◌==◌, nat_eq, if◌then◌else◌,
}
use cadder.Ipc.Client.{Awaited}

pub data WriteError : Type 0 where
  timed_out write_zero exhausted : WriteError
  failed : String → WriteError

-- What a round meets: whether the terminal deadline has passed, and what the write answers before the
-- deadline for progress. A writer takes at most the bytes that it is given.
pub record Round : Type 0 where
  pub expired : Bool
  pub answer : Awaited (Result ℕ String)

abbrev fails : WriteError → List ℕ × Result (Unit {0}) WriteError
fails e = ([], err e)

abbrev after_bytes :
    List ℕ → List ℕ × Result (Unit {0}) WriteError → List ℕ × Result (Unit {0}) WriteError
after_bytes bytes (sent, r) = (bytes ++ sent, r)

-- The rest of a round, where `rest n` is the loop after `n` bytes.
abbrev after_answer :
    Awaited (Result ℕ String)
    → List ℕ
    → (ℕ → List ℕ × Result (Unit {0}) WriteError)
    → List ℕ × Result (Unit {0}) WriteError
after_answer Awaited.late remaining rest = fails WriteError.timed_out
after_answer (Awaited.finished (err e)) remaining rest = fails (WriteError.failed e)
after_answer (Awaited.finished (ok zero)) remaining rest = fails WriteError.write_zero
after_answer (Awaited.finished (ok (suc n))) remaining rest =
    after_bytes (take (suc n) remaining) (rest (suc n))

-- The loop from round `k` on: the bytes that were written, and how it ended.
write_rounds : ℕ → (ℕ → Round) → ℕ → List ℕ → List ℕ × Result (Unit {0}) WriteError
write_rounds fuel rounds k [] = ([], ok tt)
write_rounds zero rounds k (b ∷ bs) = fails WriteError.exhausted
write_rounds (suc fuel) rounds k (b ∷ bs) =
    let going =
      after_answer (rounds k).answer (b ∷ bs)
        (λ n. write_rounds fuel rounds (suc k) (drop n (b ∷ bs))) in
    if (rounds k).expired then fails WriteError.timed_out else going

abbrev flushed : Awaited (Result (Unit {0}) String) → Result (Unit {0}) WriteError
flushed Awaited.late = err WriteError.timed_out
flushed (Awaited.finished (err e)) = err (WriteError.failed e)
flushed (Awaited.finished (ok _)) = ok tt

abbrev after_loop :
    Bool
    → Awaited (Result (Unit {0}) String)
    → List ℕ × Result (Unit {0}) WriteError
    → List ℕ × Result (Unit {0}) WriteError
after_loop expired flush (sent, err e) = (sent, err e)
after_loop expired flush (sent, ok _) =
    (sent, (if expired then err WriteError.timed_out else flushed flush))

-- `expired` is the deadline after the loop.
unfoldable pub write_frame :
    (ℕ → Round)
    → Bool
    → Awaited (Result (Unit {0}) String)
    → List ℕ
    → List ℕ × Result (Unit {0}) WriteError
unfolding write_rounds
write_frame rounds expired flush encoded =
    after_loop expired flush (write_rounds (length encoded) rounds 0 encoded)
