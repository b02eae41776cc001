-- ===== src/Ipc/Supervision.antt =====
-- `supervise_owned_mutation_request` of crates/cadder-daemon/src/ipc/supervision.rs: it waits for the
-- worker of a mutation, the client, the deadline and the daemon's drain, whichever comes first, and
-- tells the client how the mutation ended. The worker and other tasks are calls on the fence.
pub mod Replies
pub mod Honesty
pub mod Unary
use cadder.Base.{
  ℕ, String, Bool, true, false, not, ◌&&◌, ◌||◌, Option, none, some, List, [], ◌∷◌, Result, ok, err,
  ◌==◌, string_eq, if◌then◌else◌,
}
use cadder.Fence.{CommitRejection, RevokeOutcome, OperationFence, try_revoke}
use cadder.Fence.Histories.{Race, Call, step, run, revoke, completes}
use cadder.Ipc.Control.{
  ConnectionAction, ConcurrentRead, operation_timeout_error, shutting_down_error,
  request_shutting_down_error, pipelined_error,
}
use cadder.Protocol.Errors.{ProtocolError, ProtocolErrorResponse, rejected}
use cadder.Protocol.Identifiers.{RequestId}
use cadder.Protocol.Operations.{
  OperationAccess, OperationDefinition, register_entrypoint_request, unregister_entrypoint_request,
  heartbeat_entrypoint_request, set_entrypoint_enabled_request, set_domain_enabled_request,
  shutdown_daemon_request,
}

unfoldable pub owned_mutation_uses_worker : String → Bool
owned_mutation_uses_worker name =
    name == register_entrypoint_request
    || name == unregister_entrypoint_request
    || name == heartbeat_entrypoint_request
    || name == set_entrypoint_enabled_request
    || name == set_domain_enabled_request

abbrev is_mutation : OperationAccess → Bool
is_mutation OperationAccess.read_only = false
is_mutation OperationAccess.mutation = true

unfoldable pub operation_uses_fence : OperationDefinition → Bool
operation_uses_fence d = is_mutation d.access && not (d.name == shutdown_daemon_request)

pub data SupervisionError : Type 0 where
  worker_failed : String → SupervisionError
  rejected_commit : CommitRejection → SupervisionError
  write_failed : String → SupervisionError
  unfenced : SupervisionError

-- What is written to the client, in the order of the writes.
pub data Reply (R : Type 0) : Type 0 where
  response : R → Reply R
  timed_out refused unfinished : Reply R
  undecoded : ProtocolError → Reply R
  pipelined : Option RequestId → Reply R
  -- A part of the frame of an answer.
  torn : Reply R

-- The error that a reply is, by its request; a pipelined request is another one.
unfoldable pub reply_error :
    {R : Type 0} → RequestId → OperationDefinition → Reply R → Option ProtocolErrorResponse
unfolding operation_timeout_error shutting_down_error request_shutting_down_error pipelined_error
    rejected
reply_error id d (Reply.response r) = none
reply_error id d Reply.timed_out = some (operation_timeout_error (some id) d)
reply_error id d Reply.refused = some (shutting_down_error (some id))
reply_error id d Reply.unfinished = some (request_shutting_down_error (some id))
reply_error id d (Reply.undecoded e) = some (rejected (some id) e)
reply_error id d Reply.torn = none
reply_error id d (Reply.pipelined other) = some (pipelined_error other)

abbrev pub WorkerResult : Type 0 → Type 0
WorkerResult R = Result (Result R CommitRejection) String

-- What the supervisor's selection takes.
pub data Selected (R : Type 0) : Type 0 where
  worker : WorkerResult R → Selected R
  shutting_down cancelled timeout : Selected R

pub data First (R : Type 0) : Type 0 where
  selected : Selected R → First R
  reader : ConcurrentRead → First R

-- What the supervisor meets. A list of calls is what others do with the fence until then; `in_time`
-- says that the worker's result came before the deadline, `read_more` that the client has sent more.
pub record Meeting (R : Type 0) : Type 0 where
  pub decoded : Result (Unit {0}) ProtocolError
  pub guarded : Bool
  pub spawned : Bool
  pub until_first : List Call
  pub first : First R
  pub until_next : List Call
  pub next : Selected R
  pub in_time : Bool
  pub until_worker : List Call
  pub awaited : WorkerResult R
  pub read_more : Bool
  pub write : Reply R → Result (Unit {0}) String

pub record Said (R : Type 0) : Type 0 where
  pub replies : List (Reply R)
  pub action : Result ConnectionAction SupervisionError

module _ {R : Type 0} (m : Meeting R) where
  abbrev ends : Result ConnectionAction SupervisionError → Said R
  ends action = record { replies = []; action = action }

  abbrev closes : Said R
  closes = ends (ok ConnectionAction.close)

  abbrev after_write : Reply R → Said R → Result (Unit {0}) String → Said R
  after_write reply rest (ok _) = record rest { replies = reply ∷ rest.replies }
  after_write reply rest (err e) = record {
    replies = reply ∷ [];
    action = err (SupervisionError.write_failed e);
  }

  -- A write, which ends the supervision if it fails.
  abbrev send : Reply R → Said R → Said R
  send reply rest = after_write reply rest (m.write reply)

  abbrev pipe : ConcurrentRead → Said R
  pipe (ConcurrentRead.pipelined id) = send (Reply.pipelined id) closes
  pipe ConcurrentRead.closed = closes

  -- `result.context(…)??`.
  abbrev unwrapped : WorkerResult R → (R → Race × Said R) → Race → Race × Said R
  unwrapped (err e) k r = (r, ends (err (SupervisionError.worker_failed e)))
  unwrapped (ok (err e)) k r = (r, ends (err (SupervisionError.rejected_commit e)))
  unwrapped (ok (ok v)) k r = k v

  -- The worker is awaited, and its response written.
  abbrev await_worker : Said R → Race → Race × Said R
  await_worker rest r =
      let later = run r m.until_worker in
      unwrapped m.awaited (λ v. (later, send (Reply.response v) rest)) later

  late_result : R → (Bool → Said R) → RevokeOutcome → Said R
  late_result v k RevokeOutcome.finalized = send (Reply.response v) (k true)
  late_result v k RevokeOutcome.revoked = send Reply.timed_out (k false)
  late_result v k RevokeOutcome.already_revoked = k false

  -- What follows takes whether the response was written.
  write_owned_mutation_result : R → (Bool → Said R) → Race → Race × Said R
  unfolding late_result step try_revoke
  write_owned_mutation_result v k r =
      if m.in_time
      then (step r completes, send (Reply.response v) (k true))
      else (step r revoke, late_result v k (try_revoke r.fence).1)

  shutting_at : Race → RevokeOutcome → Race × Said R
  unfolding run
  shutting_at r RevokeOutcome.finalized = await_worker closes r
  shutting_at r RevokeOutcome.revoked = (r, send Reply.unfinished closes)
  shutting_at r RevokeOutcome.already_revoked = (r, send Reply.unfinished closes)

  timing_out_at : Said R → Race → RevokeOutcome → Race × Said R
  unfolding run
  timing_out_at rest r RevokeOutcome.finalized = await_worker rest r
  timing_out_at rest r RevokeOutcome.revoked = (r, send Reply.timed_out rest)
  timing_out_at rest r RevokeOutcome.already_revoked = (r, rest)

  -- One selection; `rest` follows unless the daemon shuts down, and `after` follows a result.
  select : (Bool → Said R) → Said R → Selected R → Race → Race × Said R
  unfolding run step try_revoke write_owned_mutation_result shutting_at timing_out_at
  select after rest (Selected.worker result) r =
      unwrapped result (λ v. write_owned_mutation_result v after r) r
  select after rest Selected.shutting_down r = shutting_at (step r revoke) (try_revoke r.fence).1
  select after rest Selected.cancelled r = await_worker rest r
  select after rest Selected.timeout r = timing_out_at rest (step r revoke) (try_revoke r.fence).1

  -- After a result, a client that has sent more is told so.
  abbrev after_result : Bool → Said R
  after_result wrote =
      if not wrote
      then closes
      else if not m.read_more
      then ends (ok ConnectionAction.continue)
      else send (Reply.pipelined none) closes

  supervise_worker : First R → Race → Race × Said R
  unfolding run select
  supervise_worker (First.selected s) r = select after_result closes s r
  supervise_worker (First.reader concurrent) r =
      select (λ _. pipe concurrent) (pipe concurrent) m.next (run r m.until_next)

  supervise_decoded : Race → Race × Said R
  unfolding run step supervise_worker
  supervise_decoded r =
      if not (m.guarded && m.spawned)
      then (step r revoke, send Reply.refused closes)
      else supervise_worker m.first (run r m.until_first)

  supervise_as : Result (Unit {0}) ProtocolError → Race → Race × Said R
  unfolding supervise_decoded
  supervise_as (err e) r = (r, send (Reply.undecoded e) (ends (ok ConnectionAction.continue)))
  supervise_as (ok _) r = supervise_decoded r

  unfoldable pub supervise_owned_mutation_request : Race → Race × Said R
  unfolding supervise_as
  supervise_owned_mutation_request r = supervise_as m.decoded r
