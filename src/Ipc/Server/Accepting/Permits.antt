-- ===== src/Ipc/Server/Accepting/Permits.antt =====
-- The permits of connections, and how the server comes to end.
use cadder.Base.{
  ℕ, ◌+◌, String, ◌≡◌, refl, ◌∙◌, ap, subst, ◌↔◌, ◌⊎◌, inl, inr, Bool, true, false, Option, none,
  some, List, [], ◌∷◌, Result, ok, err, any, nat_eq, arith,
}
use cadder.Daemon.Deadlines.{Daemon}
use cadder.Daemon.Deadlines.Rest.{IsAtRest}
use cadder.Fence.{CommitRejection, issue}
use cadder.Ipc.Server.{IpcLimits, Closure, ServerEnd, ServerError, shut_down}
use cadder.Ipc.Server.Accepting.{
  ShutdownOrigin, ServerEvent, shutdown_requested, told, mutation_panicked, connected, task_ended,
  joined, accept_interrupted, accept_failed, Accepting, listening, accept_connection, Left, left_or,
  closing, accept_step, accept_loop, run_until,
}
use cadder.Ipc.Server.Quiescence.{EndsAtRest, shut_down-EndsAtRest}

-- A task that runs holds a permit, and every accepted connection's task runs, is to be joined, or is.
abbrev IsCounted : ℕ → Accepting → Type 0
IsCounted max s = (s.running + s.permits ≡ max) × (s.accepted ≡ s.running + s.ended + s.done)

accept_step-IsCounted :
    (max : ℕ) (e : ServerEvent) (s : Accepting)
    → IsCounted max s
    → IsCounted max (accept_step e s).0
unfolding accept_step
accept_step-IsCounted max shutdown_requested s c = c
accept_step-IsCounted max (told (some false)) s c = c
accept_step-IsCounted max (told (some true)) s c = c
accept_step-IsCounted max (told none) s c = c
accept_step-IsCounted max mutation_panicked s c = c
accept_step-IsCounted max connected s c = (ground arith, ground arith)
accept_step-IsCounted max task_ended s c = (ground arith, ground arith)
accept_step-IsCounted max (joined e) s c = (ground arith, ground arith)
accept_step-IsCounted max accept_interrupted s c = c
accept_step-IsCounted max (accept_failed e) s c = c

left_or-IsCounted :
    (max : ℕ) (l : Left) (s : Accepting) (rest : Accepting × Left)
    → IsCounted max s
    → IsCounted max rest.0
    → IsCounted max (left_or l s rest).0
left_or-IsCounted max none s rest c later = later
left_or-IsCounted max (some l) s rest c later = c

accept_loop-IsCounted :
    (max : ℕ) (es : List ServerEvent) (s : Accepting)
    → IsCounted max s
    → IsCounted max (accept_loop es s).0
unfolding accept_loop
accept_loop-IsCounted max [] s c = c
accept_loop-IsCounted max (e ∷ es) s c =
    let counted = accept_step-IsCounted max e s c in
    left_or-IsCounted max (accept_step e s).1 (accept_step e s).0
      (accept_loop es (accept_step e s).0) counted
      (accept_loop-IsCounted max es (accept_step e s).0 counted)

-- Whatever happens, no more tasks serve connections than the limit allows, each holding a permit;
-- every accepted connection is served, to be joined or joined; and the next connection is turned away
-- exactly if as many are served as the limit allows.
pub accept_loop_bounds :
    (max : ℕ) (es : List ServerEvent)
    → let s = (accept_loop es (listening max)).0 in
      (s.running + s.permits ≡ max)
      × (s.accepted ≡ s.running + s.ended + s.done)
      × (((accept_connection s).turned_away ≡ s.turned_away + 1) ↔ (s.running ≡ max))
accept_loop_bounds max es =
    let s = (accept_loop es (listening max)).0 in
    let (held, counted) = accept_loop-IsCounted max es (listening max) (omega arith, omega arith) in
    (held, counted, (λ h. ground arith, λ h. ground arith))

-- An event that tells the server to end.
abbrev pub asks : ServerEvent → Bool
asks shutdown_requested = true
asks (told none) = true
asks (told (some b)) = b
asks _ = false

accept_step-asks :
    (e : ServerEvent) (s : Accepting) (o : ShutdownOrigin)
    → (accept_step e s).1 ≡ some (o, none)
    → asks e ≡ true
unfolding accept_step
accept_step-asks shutdown_requested s o h = refl
accept_step-asks (told (some false)) s o h = cc h
accept_step-asks (told (some true)) s o h = refl
accept_step-asks (told none) s o h = refl
accept_step-asks mutation_panicked s o h = cc h
accept_step-asks connected s o h = cc h
accept_step-asks task_ended s o h = cc h
accept_step-asks (joined none) s o h = absurd (ground (arith, h))
accept_step-asks (joined (some e)) s o h = absurd (ground (arith, h))
accept_step-asks accept_interrupted s o h = cc h
accept_step-asks (accept_failed e) s o h = cc h

left_or-left :
    (l : Left) (s : Accepting) (rest : Accepting × Left) (o : ShutdownOrigin)
    → (left_or l s rest).1 ≡ some (o, none)
    → (l ≡ some (o, none)) ⊎ (rest.1 ≡ some (o, none))
left_or-left none s rest o h = inr h
left_or-left (some l) s rest o h = inl h

accept_loop-asks :
    (es : List ServerEvent) (s : Accepting) (o : ShutdownOrigin)
    → (accept_loop es s).1 ≡ some (o, none)
    → any asks es ≡ true
unfolding accept_loop
accept_loop-asks [] s o h = cc h
accept_loop-asks (e ∷ es) s o h =
    let (s', left) = accept_step e s in
    elim (left_or-left left s' (accept_loop es s') o h) [
      | inl here ↦ ground (arith, accept_step-asks e s o here)
      | inr later ↦ ground (arith, accept_loop-asks es s' o later)
    ]

-- A server that ended well was told to, is at rest and lets no mutation begin. Unless it was the
-- forced stop that failed, it is at rest at any rate.
abbrev pub EndsAsTold : List ServerEvent → Daemon → Result (Unit {0}) ServerError → Type 0
EndsAsTold es d (ok u) =
    IsAtRest d × (any asks es ≡ true) × (issue d.lifecycle ≡ err CommitRejection.draining)
EndsAsTold es d (err e) = EndsAtRest none d (err e)

told-EndsAsTold :
    (es : List ServerEvent) (failure : Option String) (d : Daemon)
    (r : Result (Unit {0}) ServerError)
    → (failure ≡ none → any asks es ≡ true)
    → EndsAtRest failure d r
    → EndsAsTold es d r
told-EndsAsTold es failure d (ok u) asked (rest, well, shut) = (rest, asked well, shut)
told-EndsAsTold es failure d (err ServerError.force_late) asked e = tt
told-EndsAsTold es failure d (err (ServerError.force_failed x)) asked e = tt
told-EndsAsTold es failure d (err (ServerError.runtime_refused x)) asked e = e
told-EndsAsTold es failure d (err (ServerError.storage_failed x)) asked e = e
told-EndsAsTold es failure d (err (ServerError.handlers_failed x)) asked e = e
told-EndsAsTold es failure d (err (ServerError.accept_failed x)) asked e = e

-- Whatever the connections, the handlers, the system and the clock do: a server that ends well was
-- told to by an event, owns no Caddy process any more, shows an idle runtime and lets no mutation begin.
-- One that ends with an error, other than one of the forced stop, owns no Caddy process either.
pub run_until-EndsAsTold :
    (limits : IpcLimits) (es : List ServerEvent) (c : Closure) (now : ℕ) (d : Daemon)
    (e : ServerEnd)
    → run_until limits es c now d ≡ some e
    → EndsAsTold es e.state e.result
unfolding run_until
run_until-EndsAsTold limits es c now d e h =
    by_left (accept_loop es (listening limits.max_connections)).1 refl h
  where
    by_left :
        (l : Left)
        → (accept_loop es (listening limits.max_connections)).1 ≡ l
        → closing limits c now d l ≡ some e
        → EndsAsTold es e.state e.result
    by_left none same h = absurd (cc h)
    by_left (some (o, failure)) same h =
        let ended : shut_down c limits failure now d ≡ e = cc h in
        subst (λ (x : ServerEnd). EndsAsTold es x.state x.result) ended
          (told-EndsAsTold es failure (shut_down c limits failure now d).state
            (shut_down c limits failure now d).result
            (λ well.
              accept_loop-asks es (listening limits.max_connections) o
                (same ∙ ap (λ (f : Option String). some (o, f)) well))
            (shut_down-EndsAtRest c limits failure now d))
