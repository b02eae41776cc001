-- ===== src/Ipc/Client/Outcomes.antt =====
-- What a client learns from an exchange.
use cadder.Base.{
  String, ◌≡◌, refl, ap, Bool, true, false, not, some, Result, ok, err, ◌==◌, string_eq, ==→eq,
  arith, ◌&&◌, if-elim, if◌then◌else◌,
}
use cadder.Ipc.Client.{
  PreparedClientRequest, map_err, Awaited, write_prepared_request, write_prepared_request_until,
  NextFrame, is_failure, validate_response, read_client_response, Exchange, read_until, exchange,
  CadderSession, retire, restores, request_prepared,
}
use cadder.Ipc.Client.Errors.{
  ClientRequestContext, operation_retryable, request_write_error, response_read_error,
  response_frame_error, response_eof_error, response_decode_error, response_validation_error,
  request_write_timeout_error, response_timeout_error,
}
use cadder.Ipc.ClientError.{IpcClientError, LocalIpcError, daemon_error}
use cadder.Protocol.Identifiers.{RequestId}
use cadder.Protocol.Version.{current_protocol_version, version_eq, version_test_iff}
use cadder.Protocol.Wire.{
  ResponseOutcome, success, failure, ResponseEnvelope, into_result, request_id_test,
}

-- The envelope answers the request; a failure need not name the operation.
pub record Answers {T : Type 0} (request : ClientRequestContext) (outcome : ResponseOutcome T)
    (e : ResponseEnvelope T) : Type 0 where
  pub version : e.protocol_version ≡ current_protocol_version
  pub operation : is_failure outcome ≡ false → e.operation ≡ request.operation
  pub id : e.request_id ≡ request.request_id
  pub outcome_is : e.outcome ≡ outcome

-- A failure of the client's own names its request, and may be retried only if the operation may.
pub record IsUnknown (request : ClientRequestContext) (e : LocalIpcError) : Type 0 where
  pub names_id : e.request_id ≡ some request.request_id
  pub names_operation : e.operation ≡ some request.operation
  pub retries : e.retryable ≡ true → operation_retryable request.operation ≡ true

-- A result with what an answer of the daemon's comes with.
abbrev pub Outcome :
    {T : Type 0}
    → ClientRequestContext
    → (ResponseOutcome T → Type 0)
    → Result T IpcClientError
    → Type 0
Outcome request Given (ok v) = Given (success v)
Outcome request Given (err (IpcClientError.daemon e)) = Given (failure e)
Outcome request Given (err (IpcClientError.local e)) = IsUnknown request e

Outcome-map :
    {T : Type 0} (request : ClientRequestContext) (P Q : ResponseOutcome T → Type 0)
    → ((o : ResponseOutcome T) → P o → Q o)
    → (r : Result T IpcClientError) → Outcome request P r
    → Outcome request Q r
Outcome-map request P Q f (ok v) p = f (success v) p
Outcome-map request P Q f (err (IpcClientError.daemon e)) p = f (failure e) p
Outcome-map request P Q f (err (IpcClientError.local e)) p = p

into_result-Outcome :
    {T : Type 0} (request : ClientRequestContext) (P : ResponseOutcome T → Type 0)
    (o : ResponseOutcome T)
    → P o
    → Outcome request P (map_err IpcClientError.daemon (into_result o))
unfolding into_result
into_result-Outcome request P (success v) p = p
into_result-Outcome request P (failure e) p = p

request_id_test_lem : (a b : RequestId) → request_id_test a b ≡ true → a ≡ b
request_id_test_lem a b h = ap (λ t. record { text = t }) (==→eq a.text b.text h)

validate_response-Outcome :
    {T : Type 0} (request : ClientRequestContext) (e : ResponseEnvelope T)
    → Outcome request (λ o. Answers request o e) (validate_response request e)
unfolding validate_response response_validation_error
validate_response-Outcome request e =
    if-elim (Outcome request (λ o. Answers request o e)) (not version) unknown λ current.
      if-elim (Outcome request (λ o. Answers request o e)) (not failed && not operation) unknown
        λ named. if-elim (Outcome request (λ o. Answers request o e)) (not id) unknown λ same.
          into_result-Outcome request (λ o. Answers request o e) e.outcome
            (record {
              version =
                  (version_test_iff e.protocol_version current_protocol_version).0
                    (ground (arith, current));
              operation = λ h. ==→eq e.operation request.operation (ground (arith, named, h));
              id = request_id_test_lem e.request_id request.request_id (ground (arith, same));
              outcome_is = refl;
            })
  where
    version : Bool
    version = e.protocol_version == current_protocol_version

    failed : Bool
    failed = is_failure e.outcome

    operation : Bool
    operation = e.operation == request.operation

    id : Bool
    id = request_id_test e.request_id request.request_id

    unknown :
        {b : Bool} {x : String}
        → b ≡ true
        → Outcome request (λ o. Answers request o e) (err (response_validation_error request x))
    unknown h = record { names_id = refl; names_operation = refl; retries = λ h. absurd (cc h) }

abbrev Reads :
    {T : Type 0}
    → NextFrame (Result (ResponseEnvelope T) String)
    → ClientRequestContext
    → ResponseOutcome T
    → Type 0
Reads {T} f request o = (e : ResponseEnvelope T) × (f ≡ NextFrame.line (ok e)) × Answers request o e

read_client_response-Outcome :
    {T : Type 0} (request : ClientRequestContext)
    (f : NextFrame (Result (ResponseEnvelope T) String))
    → Outcome request (Reads f request) (read_client_response f request)
unfolding read_client_response response_read_error response_frame_error response_eof_error
    response_decode_error
read_client_response-Outcome {T} request (NextFrame.line (ok e)) =
    Outcome-map request (λ o. Answers request o e) (Reads (NextFrame.line (ok e)) request)
      (λ o a. (e, refl, a)) (validate_response request e) (validate_response-Outcome request e)
read_client_response-Outcome request (NextFrame.line (err e)) = record {
  names_id = refl;
  names_operation = refl;
  retries = λ h. absurd (cc h);
}
read_client_response-Outcome request (NextFrame.io e) = record {
  names_id = refl;
  names_operation = refl;
  retries = λ h. h;
}
read_client_response-Outcome request (NextFrame.codec e) = record {
  names_id = refl;
  names_operation = refl;
  retries = λ h. absurd (cc h);
}
read_client_response-Outcome request NextFrame.closed = record {
  names_id = refl;
  names_operation = refl;
  retries = λ h. h;
}

-- The request was written, and the daemon answered it in time.
pub record Exchanged {T : Type 0} (x : Exchange T) (request : ClientRequestContext)
    (o : ResponseOutcome T) : Type 0 where
  pub written : x.write ≡ Awaited.finished (ok tt, ok tt)
  pub envelope : ResponseEnvelope T
  pub read : x.read ≡ Awaited.finished (NextFrame.line (ok envelope))
  pub answers : Answers request o envelope

read_until-Outcome :
    {T : Type 0} (request : ClientRequestContext)
    (r : Awaited (NextFrame (Result (ResponseEnvelope T) String)))
    → Outcome request
        (λ o. Exchanged (record { write = Awaited.finished (ok tt, ok tt); read = r }) request o)
        (read_until r request)
unfolding read_until response_timeout_error
read_until-Outcome request (Awaited.finished f) =
    Outcome-map request (Reads f request)
      (λ o.
        Exchanged (record { write = Awaited.finished (ok tt, ok tt); read = Awaited.finished f })
          request o)
      (λ o (e, read, answers). record {
        written = refl;
        envelope = e;
        read = ap Awaited.finished read;
        answers = answers;
      })
      (read_client_response f request) (read_client_response-Outcome request f)
read_until-Outcome request Awaited.late = record {
  names_id = refl;
  names_operation = refl;
  retries = λ h. h;
}

exchange-Outcome :
    {T : Type 0} (request : ClientRequestContext) (x : Exchange T)
    → Outcome request (Exchanged x request) (exchange x request)
unfolding exchange write_prepared_request_until write_prepared_request request_write_error
    request_write_timeout_error
exchange-Outcome {T} request x = by_write x.write refl
  where
    by_write :
        (w : Awaited (Result (Unit {0}) String × Result (Unit {0}) String))
        → x.write ≡ w
        → Outcome request
            (Exchanged (record { write = w; read = x.read }) request)
            (exchange (record { write = w; read = x.read }) request)
    by_write (Awaited.finished (ok u, ok v)) h = read_until-Outcome request x.read
    by_write (Awaited.finished (ok u, err e)) h = record {
      names_id = refl;
      names_operation = refl;
      retries = λ h. h;
    }
    by_write (Awaited.finished (err e, v)) h = record {
      names_id = refl;
      names_operation = refl;
      retries = λ h. h;
    }
    by_write Awaited.late h = record { names_id = refl; names_operation = refl; retries = λ h. h }

-- What a request leaves: an open session after an answer, and a closed one otherwise.
abbrev pub Settled :
    {T : Type 0}
    → Exchange T
    → PreparedClientRequest
    → CadderSession
    → CadderSession × Result T IpcClientError
    → Type 0
Settled x prepared s (s', ok v) = Exchanged x prepared.context (success v) × (s' ≡ s)
Settled x prepared s (s', err (IpcClientError.daemon e)) =
    Exchanged x prepared.context (failure e) × (s' ≡ s)
Settled x prepared s (s', err (IpcClientError.local e)) =
    IsUnknown prepared.context e × (s' ≡ retire s)

-- A request over a usable session returns a result, or an error of the daemon's, only if it was
-- written and the daemon's answer came in time, in an envelope of the current version that has the
-- request's id and, for a result, its operation; the session stays as it was. In any other case the
-- session is retired, and the error names the request and its operation, and says that it may be
-- retried only if that operation may be.
pub request_prepared-Settled :
    {T : Type 0} (x : Exchange T) (prepared : PreparedClientRequest) (s : CadderSession)
    → s.usable ≡ true
    → Settled x prepared s (request_prepared x prepared s)
unfolding request_prepared retire daemon_error
request_prepared-Settled {T} x prepared s h =
    if-elim (Settled x prepared s) (not s.usable) (λ closed. absurd (ground (arith, h, closed)))
      λ _. by_result (exchange x prepared.context) (exchange-Outcome prepared.context x)
  where
    restored : record s { usable = true } ≡ s
    restored = ground (arith, h)

    by_result :
        (r : Result T IpcClientError)
        → Outcome prepared.context (Exchanged x prepared.context) r
        → Settled x prepared s
            (if restores r then (record s { usable = true }, r) else (retire s, r))
    by_result (ok v) o = (o, restored)
    by_result (err (IpcClientError.daemon e)) o = (o, restored)
    by_result (err (IpcClientError.local e)) o = (o, refl)
