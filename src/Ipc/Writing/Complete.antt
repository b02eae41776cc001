-- ===== src/Ipc/Writing/Complete.antt =====
-- A frame is written whole, or cut short with an error.
use cadder.Base.{
  ℕ, zero, suc, ◌≤◌, ◌≡◌, ◌≢◌, String, refl, ap, ◌∙◌, Bool, List, [], ◌∷◌, ◌++◌, Result, ok, err,
  take, drop, length, length-drop, take-append-drop, append_assoc, append_nil, arith, if-elim,
  subst,
}
use cadder.Ipc.Client.{Awaited}
use cadder.Ipc.Writing.{
  WriteError, Round, after_bytes, after_answer, write_rounds, flushed, after_loop, write_frame,
}

-- The bytes sent are the first of the frame; all of them if the write succeeds; and it ends.
abbrev pub IsWritten : List ℕ → List ℕ × Result (Unit {0}) WriteError → Type 0
IsWritten frame (sent, ok u) = sent ≡ frame
IsWritten frame (sent, err e) =
    ((rest : List ℕ) × (sent ++ rest ≡ frame)) × (e ≢ WriteError.exhausted)

after_bytes-IsWritten :
    (bytes remaining : List ℕ) (p : List ℕ × Result (Unit {0}) WriteError)
    → IsWritten remaining p
    → IsWritten (bytes ++ remaining) (after_bytes bytes p)
after_bytes-IsWritten bytes remaining (sent, ok u) h = ap (λ l. bytes ++ l) h
after_bytes-IsWritten bytes remaining (sent, err e) ((rest, h), n) =
    ((rest, append_assoc bytes sent rest ∙ ap (λ l. bytes ++ l) h), n)

after_answer-IsWritten :
    (a : Awaited (Result ℕ String)) (remaining : List ℕ)
    (rest : ℕ → List ℕ × Result (Unit {0}) WriteError)
    → ((n : ℕ) → IsWritten (drop (suc n) remaining) (rest (suc n)))
    → IsWritten remaining (after_answer a remaining rest)
after_answer-IsWritten Awaited.late remaining rest h = ((remaining, refl), λ e. absurd (cc e))
after_answer-IsWritten (Awaited.finished (err e)) remaining rest h =
    ((remaining, refl), λ e. absurd (cc e))
after_answer-IsWritten (Awaited.finished (ok zero)) remaining rest h =
    ((remaining, refl), λ e. absurd (cc e))
after_answer-IsWritten (Awaited.finished (ok (suc n))) remaining rest h =
    subst (λ l. IsWritten l (after_bytes (take (suc n) remaining) (rest (suc n))))
      (take-append-drop (suc n) remaining)
      (after_bytes-IsWritten (take (suc n) remaining) (drop (suc n) remaining) (rest (suc n)) (h n))

write_rounds-IsWritten :
    (fuel : ℕ) (rounds : ℕ → Round) (k : ℕ) (remaining : List ℕ)
    → length remaining ≤ fuel
    → IsWritten remaining (write_rounds fuel rounds k remaining)
unfolding write_rounds
write_rounds-IsWritten fuel rounds k [] h = refl
write_rounds-IsWritten zero rounds k (b ∷ bs) h = absurd (omega (arith, h))
write_rounds-IsWritten (suc fuel) rounds k (b ∷ bs) h =
    if-elim (IsWritten (b ∷ bs)) (rounds k).expired (λ _. ((b ∷ bs, refl), λ e. absurd (cc e)))
      λ _.
        after_answer-IsWritten (rounds k).answer (b ∷ bs)
          (λ n. write_rounds fuel rounds (suc k) (drop n (b ∷ bs)))
          (λ n.
            write_rounds-IsWritten fuel rounds (suc k) (drop n bs)
              (let less = length-drop n bs in omega (arith, less, h)))

-- Whatever the writer and the clock do, the loop ends within as many rounds as the frame has bytes.
-- If the write succeeds, exactly the frame was sent; if not, what was sent begins the frame.
pub write_frame-IsWritten :
    (rounds : ℕ → Round) (expired : Bool) (flush : Awaited (Result (Unit {0}) String))
    (frame : List ℕ)
    → IsWritten frame (write_frame rounds expired flush frame)
unfolding write_frame
write_frame-IsWritten rounds expired flush frame =
    by_loop (write_rounds (length frame) rounds 0 frame)
      (write_rounds-IsWritten (length frame) rounds 0 frame (omega arith))
  where
    whole : (sent : List ℕ) → sent ≡ frame → (rest : List ℕ) × (sent ++ rest ≡ frame)
    whole sent h = ([], append_nil sent ∙ h)

    by_flush :
        (sent : List ℕ) (a : Awaited (Result (Unit {0}) String))
        → sent ≡ frame
        → IsWritten frame (sent, flushed a)
    by_flush sent Awaited.late h = (whole sent h, λ e. absurd (cc e))
    by_flush sent (Awaited.finished (err e)) h = (whole sent h, λ e. absurd (cc e))
    by_flush sent (Awaited.finished (ok u)) h = h

    by_loop :
        (p : List ℕ × Result (Unit {0}) WriteError)
        → IsWritten frame p
        → IsWritten frame (after_loop expired flush p)
    by_loop (sent, err e) h = h
    by_loop (sent, ok u) h =
        if-elim (λ r. IsWritten frame (sent, r)) expired (λ _. (whole sent h, λ e. absurd (cc e)))
          (λ _. by_flush sent flush h)
