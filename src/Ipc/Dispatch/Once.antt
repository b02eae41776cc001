-- ===== src/Ipc/Dispatch/Once.antt =====
-- How often a dispatched request is answered.
use cadder.Base.{
  [], ◌≤◌, ◌≡◌, refl, sym, subst, none, Result, ok, err, ◌==◌, string_eq, if-elim, arith,
}
use cadder.Daemon.Deadlines.{Daemon}
use cadder.Ipc.Control.{ConnectionAction}
use cadder.Ipc.Dispatch.{
  DispatchResponse, Dispatching, answer_state, answer_logs, answer_shutdown, dispatch_decoded,
  dispatch_authorized_request,
}
use cadder.Ipc.Supervision.Replies.{answers}
use cadder.Ipc.Supervision.Unary.{
  Handled, Unary, Arriving, Pending, pending, reader, handler, shutting_down, cancelled, timeout,
  supervise_handler,
}
use cadder.Ipc.Supervision.Unary.Answers.{
  HandlesOnce, ArrivesOnce, PendsOnce, supervise_handler-once,
}
use cadder.Protocol.Errors.{ProtocolError}
use cadder.Protocol.Logs.{QueryLogsPayload}
use cadder.Protocol.Operations.{
  AuthorizedRequestEnvelope, query_state_request, query_logs_request, shutdown_daemon_request,
}

module _ (x : Dispatching) (a : AuthorizedRequestEnvelope) (d : Daemon) where
  abbrev IsHandled : Daemon × Handled DispatchResponse → Type 0
  IsHandled (d', h) = HandlesOnce h

  dispatch_decoded-IsHandled :
      (r : Result QueryLogsPayload ProtocolError) → IsHandled (dispatch_decoded x a r d)
  unfolding dispatch_decoded answer_state answer_logs answer_shutdown
  dispatch_decoded-IsHandled (err e) = (omega arith, λ b h. refl)
  dispatch_decoded-IsHandled (ok p) =
      if-elim IsHandled (a.definition.name == query_state_request) (λ _. (omega arith, λ b h. refl))
        (λ _.
          if-elim IsHandled (a.definition.name == query_logs_request)
            (λ _. (omega arith, λ b h. refl))
            (λ _.
              if-elim IsHandled (a.definition.name == shutdown_daemon_request)
                (λ _. (omega arith, λ b h. refl)) (λ _. (omega arith, λ b h. cc h))))

  -- Every dispatched request is answered once at most, and once if its dispatch does not fail.
  pub dispatch-HandlesOnce : HandlesOnce (dispatch_authorized_request x a d).1
  unfolding dispatch_authorized_request
  dispatch-HandlesOnce = dispatch_decoded-IsHandled x.decoded

  -- The handler under supervision is the dispatch. Without a fence nothing cancels it, and if it is
  -- dropped, then before it has written anything.
  abbrev pub Dispatches : Pending DispatchResponse → Type 0
  Dispatches (handler h) = h ≡ (dispatch_authorized_request x a d).1
  Dispatches (cancelled replies) = ⊥
  Dispatches (shutting_down replies) = replies ≡ []
  Dispatches (timeout replies) = replies ≡ []

  abbrev pub FirstDispatches : Arriving DispatchResponse → Type 0
  FirstDispatches (pending p) = Dispatches p
  FirstDispatches (reader c) = Unit

  Dispatches-PendsOnce : (p : Pending DispatchResponse) → Dispatches p → PendsOnce p
  Dispatches-PendsOnce (handler h) same = subst HandlesOnce (sym same) dispatch-HandlesOnce
  Dispatches-PendsOnce (shutting_down replies) nothing = nothing
  Dispatches-PendsOnce (cancelled replies) same = absurd same
  Dispatches-PendsOnce (timeout replies) nothing = nothing

  FirstDispatches-ArrivesOnce : (f : Arriving DispatchResponse) → FirstDispatches f → ArrivesOnce f
  FirstDispatches-ArrivesOnce (pending p) same = Dispatches-PendsOnce p same
  FirstDispatches-ArrivesOnce (reader c) same = tt

  -- Provided that a dispatch that is dropped at the deadline or at the drain has written nothing yet, a
  -- client whose request is dispatched without a fence is answered once at most, and exactly once if
  -- the supervision ends without an error: by the dispatch, by the timeout or by the drain. No fence
  -- comes of it.
  pub supervise_dispatched-once :
      (u : Unary DispatchResponse)
      → FirstDispatches u.first
      → Dispatches u.next
      → let (f, said) = supervise_handler u none in
        (f ≡ none)
        × (answers said.replies ≤ 1)
        × ((b : ConnectionAction) → said.action ≡ ok b → answers said.replies ≡ 1)
  supervise_dispatched-once u first next =
      supervise_handler-once u (FirstDispatches-ArrivesOnce u.first first)
        (Dispatches-PendsOnce u.next next)
