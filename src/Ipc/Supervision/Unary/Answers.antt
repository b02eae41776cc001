-- ===== src/Ipc/Supervision/Unary/Answers.antt =====
-- How often a client is answered whose request a handler has.
use cadder.Base.{
  ◌+◌, ◌≤◌, String, ◌≡◌, refl, sym, subst, true, false, none, List, [], ◌∷◌, ◌++◌, Result, ok, err,
  if-elim, arith,
}
use cadder.Ipc.Control.{ConnectionAction, ConcurrentRead}
use cadder.Ipc.Supervision.{Reply, SupervisionError, Said}
use cadder.Ipc.Supervision.Replies.{answers, is_answer}
use cadder.Ipc.Supervision.Unary.{
  Handled, Pending, handler, shutting_down, cancelled, timeout, Arriving, pending, reader, Unary,
  completed, revoked, closed, finish, written, send_reply, read_end, after_handler, handler_ended,
  first_ended, next_ended, supervise_first, supervise_next, supervise_handler_at, supervise_handler,
}

-- A handler answers once at most, and once if it does not fail.
abbrev pub HandlesOnce : {R : Type 0} → Handled R → Type 0
HandlesOnce h =
    (answers h.replies ≤ 1) × ((a : ConnectionAction) → h.result ≡ ok a → answers h.replies ≡ 1)

-- Without a fence nothing cancels an operation. A handler that is dropped has written nothing.
abbrev pub PendsOnce : {R : Type 0} → Pending R → Type 0
PendsOnce (handler h) = HandlesOnce h
PendsOnce (cancelled replies) = ⊥
PendsOnce (shutting_down replies) = replies ≡ []
PendsOnce (timeout replies) = replies ≡ []

abbrev pub ArrivesOnce : {R : Type 0} → Arriving R → Type 0
ArrivesOnce (pending p) = PendsOnce p
ArrivesOnce (reader c) = Unit

abbrev IsOnce : {R : Type 0} → Said R → Type 0
IsOnce said =
    (answers said.replies ≤ 1)
    × ((a : ConnectionAction) → said.action ≡ ok a → answers said.replies ≡ 1)

answers-append :
    {R : Type 0} (xs ys : List (Reply R)) → answers (xs ++ ys) ≡ answers xs + answers ys
answers-append [] ys = omega arith
answers-append (x ∷ xs) ys = ground (arith, answers-append xs ys)

module _ {R : Type 0} (u : Unary R) where
  -- What follows an answer holds none.
  abbrev IsSilent : Said R → Type 0
  IsSilent said = answers said.replies ≡ 0

  send-IsOnce :
      (reply : Reply R) (rest : Said R)
      → is_answer reply ≡ true
      → IsSilent rest
      → IsOnce (send_reply u reply rest)
  send-IsOnce reply rest answering silent = by_write (u.write reply)
    where
      by_write : (w : Result (Unit {0}) String) → IsOnce (written u reply rest w)
      by_write (ok t) =
          (ground (arith, answering, silent), λ a e. ground (arith, answering, silent))
      by_write (err e) = (ground (arith, answering), λ a h. cc)

  send-IsSilent :
      (reply : Reply R) (rest : Said R)
      → is_answer reply ≡ false
      → IsSilent rest
      → IsSilent (send_reply u reply rest)
  send-IsSilent reply rest other silent = by_write (u.write reply)
    where
      by_write : (w : Result (Unit {0}) String) → IsSilent (written u reply rest w)
      by_write (ok t) = ground (arith, other, silent)
      by_write (err e) = ground (arith, other)

  read_end-IsSilent : (c : ConcurrentRead) → IsSilent (read_end u c)
  read_end-IsSilent (ConcurrentRead.pipelined id) =
      send-IsSilent (Reply.pipelined id) (closed u) refl refl
  read_end-IsSilent ConcurrentRead.closed = refl

  handler_ended-IsSilent : (a : ConnectionAction) → IsSilent (handler_ended u a)
  handler_ended-IsSilent a =
      if-elim IsSilent u.read_more (λ _. send-IsSilent (Reply.pipelined none) (closed u) refl refl)
        (λ _. refl)

  after_handler-IsOnce :
      (h : Handled R) (a : ConnectionAction) (rest : Said R)
      → HandlesOnce h
      → h.result ≡ ok a
      → IsSilent rest
      → IsOnce (after_handler u h.replies rest)
  after_handler-IsOnce h a rest once ended silent =
      let whole = answers-append h.replies rest.replies in
      let one = once.1 a ended in (omega arith, λ b e. omega arith)

  failed-IsOnce :
      (h : Handled R) (e : SupervisionError)
      → HandlesOnce h
      → IsOnce (after_handler u h.replies (finish u (err e)))
  failed-IsOnce h e once =
      let whole = answers-append h.replies [] in (omega arith, λ a same. cc same)

  dropped-IsOnce :
      (replies : List (Reply R)) (said : Said R)
      → replies ≡ []
      → IsOnce said
      → IsOnce (after_handler u replies said)
  dropped-IsOnce replies said nothing once =
      subst (λ written. IsOnce (after_handler u written said)) (sym nothing) once

  supervise_first-IsOnce :
      (p : Pending R)
      → PendsOnce p
      → ((supervise_first u none p).0 ≡ none) × IsOnce (supervise_first u none p).1
  unfolding supervise_first completed revoked
  supervise_first-IsOnce (handler h) once = (refl, by_result h.result refl)
    where
      by_result :
          (r : Result ConnectionAction SupervisionError) → h.result ≡ r → IsOnce (first_ended u h r)
      by_result (err e) same = failed-IsOnce h e once
      by_result (ok a) same =
          after_handler-IsOnce h a (handler_ended u a) once same (handler_ended-IsSilent a)
  supervise_first-IsOnce (shutting_down replies) nothing =
      (refl, dropped-IsOnce replies _ nothing (send-IsOnce Reply.unfinished (closed u) refl refl))
  supervise_first-IsOnce (cancelled replies) once = absurd once
  supervise_first-IsOnce (timeout replies) nothing =
      (refl, dropped-IsOnce replies _ nothing (send-IsOnce Reply.timed_out (closed u) refl refl))

  supervise_next-IsOnce :
      (c : ConcurrentRead) (p : Pending R)
      → PendsOnce p
      → ((supervise_next u none c p).0 ≡ none) × IsOnce (supervise_next u none c p).1
  unfolding supervise_next completed revoked
  supervise_next-IsOnce c (handler h) once = (refl, by_result h.result refl)
    where
      by_result :
          (r : Result ConnectionAction SupervisionError)
          → h.result ≡ r
          → IsOnce (next_ended u h c r)
      by_result (err e) same = failed-IsOnce h e once
      by_result (ok a) same =
          after_handler-IsOnce h a (read_end u c) once same (read_end-IsSilent c)
  supervise_next-IsOnce c (shutting_down replies) nothing =
      (refl, dropped-IsOnce replies _ nothing (send-IsOnce Reply.unfinished (closed u) refl refl))
  supervise_next-IsOnce c (cancelled replies) once = absurd once
  supervise_next-IsOnce c (timeout replies) nothing = (
    refl,
    dropped-IsOnce replies _ nothing
        (send-IsOnce Reply.timed_out (read_end u c) refl (read_end-IsSilent c)),
  )

  -- A client whose request has a handler, and so no fence, is answered once at most, and exactly once if
  -- the supervision ends without an error: by the handler, by the timeout or by the drain. The handler
  -- answers once at most, and once if it ends without an error; one that is dropped has written nothing.
  pub supervise_handler-once :
      ArrivesOnce u.first
      → PendsOnce u.next
      → let (f, said) = supervise_handler u none in
        (f ≡ none)
        × (answers said.replies ≤ 1)
        × ((a : ConnectionAction) → said.action ≡ ok a → answers said.replies ≡ 1)
  unfolding supervise_handler supervise_handler_at
  supervise_handler-once first next =
      let (unfenced, once) = by_first u.first first in (unfenced, once.0, once.1)
    where
      by_first :
          (f : Arriving R)
          → ArrivesOnce f
          → ((supervise_handler_at u none f).0 ≡ none) × IsOnce (supervise_handler_at u none f).1
      by_first (pending p) once = supervise_first-IsOnce p once
      by_first (reader c) once = supervise_next-IsOnce c u.next next
