-- ===== src/Ipc/Supervision/Unary.antt =====
-- `supervise_unary_request` of crates/cadder-daemon/src/ipc/supervision.rs: a request gets a fence if
-- it needs one, and goes to the supervisor of mutations or to a handler, which is supervised here. What
-- the handler answers, and which of the events comes first, are arguments.
pub mod Routing
pub mod Answers
use cadder.Base.{
  String, Bool, true, false, Option, none, some, List, [], ◌∷◌, ◌++◌, Result, ok, err,
  if◌then◌else◌,
}
use cadder.Fence.{
  CommitRejection, draining, LifecycleEpoch, OperationFence, issue, complete, try_revoke,
}
use cadder.Ipc.Control.{ConnectionAction, ConcurrentRead}
use cadder.Ipc.Supervision.{
  Reply, SupervisionError, Said, owned_mutation_uses_worker, operation_uses_fence,
}
use cadder.Protocol.Operations.{AuthorizedRequestEnvelope}

-- What a handler that ends has written, and its result.
pub record Handled (R : Type 0) : Type 0 where
  pub replies : List (Reply R)
  pub result : Result ConnectionAction SupervisionError

-- A handler that is dropped may have written its answer, or a part of it.
pub data Pending (R : Type 0) : Type 0 where
  handler : Handled R → Pending R
  shutting_down cancelled timeout : List (Reply R) → Pending R

pub data Arriving (R : Type 0) : Type 0 where
  pending : Pending R → Arriving R
  reader : ConcurrentRead → Arriving R

-- `next` is what follows a reader's frame.
pub record Unary (R : Type 0) : Type 0 where
  pub first : Arriving R
  pub next : Pending R
  pub read_more : Bool
  pub write : Reply R → Result (Unit {0}) String

-- Where a request goes: the client is told that the daemon shuts down, the connection fails, or the
-- request is handled. A mutation without a fence would be a panic.
pub data Route : Type 0 where
  told_shutdown : Route
  failed : CommitRejection → Route
  to_worker : OperationFence → Route
  panics : Route
  to_handler : Option OperationFence → Route

abbrev fenced : AuthorizedRequestEnvelope → Option OperationFence → Route
fenced a (some f) =
    if owned_mutation_uses_worker a.definition.name then to_worker f else to_handler (some f)
fenced a none = if owned_mutation_uses_worker a.definition.name then panics else to_handler none

abbrev issued : AuthorizedRequestEnvelope → Result OperationFence CommitRejection → Route
issued a (ok f) = fenced a (some f)
issued a (err CommitRejection.draining) = told_shutdown
issued a (err e) = failed e

unfoldable pub route : LifecycleEpoch → AuthorizedRequestEnvelope → Route
route l a = if operation_uses_fence a.definition then issued a (issue l) else fenced a none

-- The fence afterwards: completed by a handler that ended, revoked otherwise.
abbrev pub completed : Option OperationFence → Option OperationFence
unfolding complete
completed none = none
completed (some f) = some (complete f)

abbrev pub revoked : Option OperationFence → Option OperationFence
unfolding try_revoke
revoked none = none
revoked (some f) = some (try_revoke f).0

module _ {R : Type 0} (u : Unary R) where
  abbrev finish : Result ConnectionAction SupervisionError → Said R
  finish action = record { replies = []; action = action }

  abbrev closed : Said R
  closed = finish (ok ConnectionAction.close)

  abbrev written : Reply R → Said R → Result (Unit {0}) String → Said R
  written reply rest (ok _) = record rest { replies = reply ∷ rest.replies }
  written reply rest (err e) = record {
    replies = reply ∷ [];
    action = err (SupervisionError.write_failed e);
  }

  abbrev send_reply : Reply R → Said R → Said R
  send_reply reply rest = written reply rest (u.write reply)

  abbrev read_end : ConcurrentRead → Said R
  read_end (ConcurrentRead.pipelined id) = send_reply (Reply.pipelined id) closed
  read_end ConcurrentRead.closed = closed

  abbrev after_handler : List (Reply R) → Said R → Said R
  after_handler replies rest = record rest { replies = replies ++ rest.replies }

  abbrev handler_ended : ConnectionAction → Said R
  handler_ended action =
      if u.read_more then send_reply (Reply.pipelined none) closed else finish (ok action)

  abbrev first_ended : Handled R → Result ConnectionAction SupervisionError → Said R
  first_ended h (err e) = after_handler h.replies (finish (err e))
  first_ended h (ok action) = after_handler h.replies (handler_ended action)

  supervise_first : Option OperationFence → Pending R → Option OperationFence × Said R
  supervise_first f (handler h) = (completed f, first_ended h h.result)
  supervise_first f (shutting_down replies) =
      (revoked f, after_handler replies (send_reply Reply.unfinished closed))
  supervise_first f (cancelled replies) = (revoked f, after_handler replies closed)
  supervise_first f (timeout replies) =
      (revoked f, after_handler replies (send_reply Reply.timed_out closed))

  abbrev next_ended : Handled R → ConcurrentRead → Result ConnectionAction SupervisionError → Said R
  next_ended h c (err e) = after_handler h.replies (finish (err e))
  next_ended h c (ok action) = after_handler h.replies (read_end c)

  supervise_next :
      Option OperationFence → ConcurrentRead → Pending R → Option OperationFence × Said R
  supervise_next f c (handler h) = (completed f, next_ended h c h.result)
  supervise_next f c (shutting_down replies) =
      (revoked f, after_handler replies (send_reply Reply.unfinished closed))
  supervise_next f c (cancelled replies) =
      (revoked f, after_handler replies (send_reply Reply.unfinished closed))
  supervise_next f c (timeout replies) =
      (revoked f, after_handler replies (send_reply Reply.timed_out (read_end c)))

  supervise_handler_at : Option OperationFence → Arriving R → Option OperationFence × Said R
  unfolding supervise_first supervise_next
  supervise_handler_at f (pending p) = supervise_first f p
  supervise_handler_at f (reader c) = supervise_next f c u.next

  unfoldable pub supervise_handler : Option OperationFence → Option OperationFence × Said R
  unfolding supervise_handler_at
  supervise_handler f = supervise_handler_at f u.first
