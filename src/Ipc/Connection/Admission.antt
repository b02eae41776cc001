-- ===== src/Ipc/Connection/Admission.antt =====
-- Whose requests are dispatched, and which.
use cadder.Base.{
  String, ◌≡◌, refl, sym, subst, Bool-cases, inl, inr, All-weaken, true, not, Option, none, some,
  List, [], ◌∷◌, Result, ok, err, All, if-elim, ◌==◌, arith,
}
use cadder.Ipc.Access.{
  IpcPrincipal, IsSameAccount, is_same_identity-IsSameAccount, is_same_identity, authenticate_peer,
  authorize_or_reject,
}
use cadder.Ipc.Client.{Awaited}
use cadder.Ipc.Connection.{
  PeerAuthenticationError, matched, authenticate_accepted_connection, Turn, Served, ending,
  replying, dispatching, authorized_turn, admitted_turn, handle_envelope, handle_frame,
  handle_connection_turns, Arrival, negotiated, handle_connection_loop, authenticated, within_time,
  serve_accepted_connection,
}
use cadder.Ipc.Control.{ConnectionAction, shutting_down_error}
use cadder.Ipc.Handshake.{ServerHandshakeIdentity, NegotiatedSession, accept_client_handshake}
use cadder.Protocol.Errors.{rejected, ProtocolError, ProtocolErrorResponse}
use cadder.Protocol.Operations.{
  OperationDefinition, RawRequestEnvelope, AuthorizedRequestEnvelope, authorized_by,
  lookup_operation, authorize_envelope,
}
use cadder.Protocol.Version.{current_protocol_version, version_eq, version_test_iff}

-- A request of the current version whose operation is in the registry.
pub record IsSupported (a : AuthorizedRequestEnvelope) : Type 0 where
  pub version : a.envelope.protocol_version ≡ current_protocol_version
  pub operation : lookup_operation a.envelope.operation ≡ some a.definition

-- A supported request of a peer of the owner's account, in a session.
pub record IsAdmitted (owner : IpcPrincipal) (server : ServerHandshakeIdentity) (a : Arrival)
    (request : AuthorizedRequestEnvelope) : Type 0 where
  pub peer : IpcPrincipal
  pub authenticates : a.authentication ≡ Awaited.finished (ok tt, ok peer)
  pub same_account : IsSameAccount owner peer
  pub session : NegotiatedSession
  pub shaken : (accept_client_handshake server a.first a.next a.hello_write).1 ≡ ok (some session)
  pub supported : IsSupported request

authorize_envelope-IsSupported :
    (e : RawRequestEnvelope) (a : AuthorizedRequestEnvelope)
    → authorize_envelope e ≡ ok a
    → IsSupported a
unfolding authorize_envelope authorized_by
authorize_envelope-IsSupported e a =
    if-elim (λ r. r ≡ ok a → IsSupported a) (not (e.protocol_version == current_protocol_version))
      (λ _ h. absurd (cc h))
      (λ same. by_lookup (lookup_operation e.operation) refl (ground (arith, same)))
  where
    ok_inj :
        (x y : AuthorizedRequestEnvelope)
        → ◌≡◌ {A = Result AuthorizedRequestEnvelope ProtocolError} (ok x) (ok y)
        → x ≡ y
    ok_inj x y h = cc h

    by_lookup :
        (o : Option OperationDefinition)
        → lookup_operation e.operation ≡ o
        → (e.protocol_version == current_protocol_version) ≡ true
        → authorized_by e o ≡ ok a
        → IsSupported a
    by_lookup none found same h = absurd (cc h)
    by_lookup (some d) found same h =
        let version = (version_test_iff e.protocol_version current_protocol_version).0 same in
        subst IsSupported (ok_inj (record { definition = d; envelope = e }) a h)
          (record { version = version; operation = found })

AllSupported : Served → Type 0
AllSupported s = All IsSupported s.dispatched

module _ (owner peer : IpcPrincipal) where
  replying-supported :
      (reply : ProtocolErrorResponse) (w : Result (Unit {0}) String) (rest : Served)
      → AllSupported rest
      → AllSupported (replying reply w rest)
  unfolding AllSupported
  replying-supported reply (ok u) rest h = h
  replying-supported reply (err e) rest h = tt

  dispatching-supported :
      (a : AuthorizedRequestEnvelope) (r : Result ConnectionAction String) (rest : Served)
      → IsSupported a
      → AllSupported rest
      → AllSupported (dispatching a r rest)
  unfolding AllSupported
  dispatching-supported a (err e) rest s h = (s, tt)
  dispatching-supported a (ok ConnectionAction.close) rest s h = (s, tt)
  dispatching-supported a (ok ConnectionAction.continue) rest s h = (s, h)

  authorized_turn-supported :
      (t : Turn) (e : RawRequestEnvelope) (rest : Served)
      (r : Result AuthorizedRequestEnvelope ProtocolError)
      → authorize_envelope e ≡ r
      → AllSupported rest
      → AllSupported (authorized_turn t e rest r)
  unfolding authorized_turn
  authorized_turn-supported t e rest (err x) is h =
      replying-supported (rejected (some e.request_id) x) t.write rest h
  authorized_turn-supported t e rest (ok a) is h =
      dispatching-supported a (t.supervised a) rest (authorize_envelope-IsSupported e a is) h

  admitted_turn-supported :
      (t : Turn) (e : RawRequestEnvelope) (rest : Served)
      (o : Option (String × ProtocolErrorResponse))
      → AllSupported rest
      → AllSupported (admitted_turn t e rest o)
  unfolding AllSupported admitted_turn
  admitted_turn-supported t e rest (some (line, denial)) h =
      replying-supported denial t.write rest h
  admitted_turn-supported t e rest none h =
      authorized_turn-supported t e rest (authorize_envelope e) refl h

  handle_frame-supported :
      (t : Turn) (f : Option (Result (Result RawRequestEnvelope String) String)) (rest : Served)
      → AllSupported rest
      → AllSupported (handle_frame owner peer t f rest)
  unfolding AllSupported handle_envelope handle_frame
  handle_frame-supported t none rest h = tt
  handle_frame-supported t (some (err e)) rest h = tt
  handle_frame-supported t (some (ok (err e))) rest h = tt
  handle_frame-supported t (some (ok (ok e))) rest h =
      if-elim AllSupported t.draining
        (λ _.
          replying-supported (shutting_down_error (some e.request_id)) t.write (ending (ok tt)) tt)
        (λ _. admitted_turn-supported t e rest (authorize_or_reject owner peer e) h)

  turns-supported : (ts : List Turn) → AllSupported (handle_connection_turns owner peer ts)
  unfolding AllSupported handle_connection_turns
  turns-supported [] = tt
  turns-supported (t ∷ ts) =
      handle_frame-supported t t.frame (handle_connection_turns owner peer ts) (turns-supported ts)

matched-IsSameAccount :
    (owner peer principal : IpcPrincipal)
    → matched owner peer ≡ ok principal
    → (principal ≡ peer) × IsSameAccount owner peer
unfolding matched authenticate_peer
matched-IsSameAccount owner peer principal h = elim (Bool-cases (is_same_identity owner peer)) [
  | inl same ↦ (ground (arith, h, same), is_same_identity-IsSameAccount owner peer same)
  | inr other ↦ absurd (ground (arith, h, other))
]

module _ (owner : IpcPrincipal) (server : ServerHandshakeIdentity) (a : Arrival) where
  abbrev Admits : Served → Type 0
  Admits s = All (IsAdmitted owner server a) s.dispatched

  of_peer :
      (peer : IpcPrincipal)
      → a.authentication ≡ Awaited.finished (ok tt, ok peer)
      → IsSameAccount owner peer
      → Admits (handle_connection_loop owner server a peer)
  unfolding handle_connection_loop negotiated AllSupported
  of_peer peer h same =
      by_session (accept_client_handshake server a.first a.next a.hello_write).1 refl
    where
      by_session :
          (r : Result (Option NegotiatedSession) String)
          → (accept_client_handshake server a.first a.next a.hello_write).1 ≡ r
          → Admits (negotiated owner peer a.turns r)
      by_session (err e) is = tt
      by_session (ok none) is = tt
      by_session (ok (some session)) is =
          All-weaken IsSupported (IsAdmitted owner server a)
            (handle_connection_turns owner peer a.turns).dispatched
            (λ request supported. record {
              peer = peer;
              authenticates = h;
              same_account = same;
              session = session;
              shaken = is;
              supported = supported;
            })
            (turns-supported owner peer a.turns)

  authenticated-Admits :
      (sent : Result (Unit {0}) String) (resolved : Result IpcPrincipal String)
      → a.authentication ≡ Awaited.finished (sent, resolved)
      → Admits (authenticated owner server a (authenticate_accepted_connection owner sent resolved))
  unfolding authenticated authenticate_accepted_connection
  authenticated-Admits (err e) resolved h = tt
  authenticated-Admits (ok u) (err e) h = tt
  authenticated-Admits (ok u) (ok peer) h = by_match (matched owner peer) refl
    where
      by_match :
          (m : Result IpcPrincipal PeerAuthenticationError)
          → matched owner peer ≡ m
          → Admits (authenticated owner server a m)
      by_match (err e) is = tt
      by_match (ok principal) is =
          let (same, account) = matched-IsSameAccount owner peer principal is in
          subst (λ p. Admits (handle_connection_loop owner server a p)) (sym same)
            (of_peer peer h account)

  within_time-Admits :
      (w : Awaited (Result (Unit {0}) String × Result IpcPrincipal String))
      → a.authentication ≡ w
      → Admits (within_time owner server a w)
  unfolding within_time
  within_time-Admits Awaited.late h = tt
  within_time-Admits (Awaited.finished (sent, resolved)) h = authenticated-Admits sent resolved h

  -- Every request that a connection dispatches is of the current version and of an operation of the
  -- registry; its peer has passed the preface and has the known identity of the runtime's owner, and
  -- the handshake has given a session.
  pub serve-Admits : Admits (serve_accepted_connection owner server a)
  unfolding serve_accepted_connection
  serve-Admits =
      if-elim Admits a.cancelled (λ _. tt) (λ _. within_time-Admits a.authentication refl)
