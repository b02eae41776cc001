-- ===== src/Ipc/Handshake/Agreement.antt =====
-- When a handshake gives a session, and that both ends agree on it.
use cadder.Base.{
  String, ◌≡◌, ◌≢◌, refl, sym, ap, subst, ◌↔◌, inl, inr, true, false, not, Option, none, some,
  Result, ok, err, ◌==◌, string_eq, ==→eq, ==_refl, arith, Bool-cases, if-elim,
}
use cadder.Ipc.Client.{Awaited, NextFrame}
use cadder.Ipc.ClientError.{IpcClientError}
use cadder.Ipc.Handshake.{
  ServerHandshakeIdentity, NegotiatedSession, FirstByte, accept_client_handshake, answer_hello,
}
use cadder.Ipc.Handshake.ClientEnd.{
  validate_server_hello, validate_rejection, client_hello, perform_client_handshake,
  stale_handshake_error,
}
use cadder.Protocol.Errors.{stale_instance, with_request_id}
use cadder.Protocol.Handshake.{
  rejecting, ServerHello, ServerHandshakeFrame, HandshakeRejection, deserialize_frame,
}
use cadder.Protocol.Identifiers.{RequestId}
use cadder.Protocol.Version.{current_protocol_version, version_eq, version_test_iff}
use cadder.Protocol.Wire.{request_id_test, same_request}

abbrev pub current_session : NegotiatedSession
current_session = record { version = current_protocol_version }

-- A hello that confirms the request of that id to the runtime of that key.
pub record Confirms (id : RequestId) (key : String) (hello : ServerHello) : Type 0 where
  pub same_id : hello.request_id ≡ id
  pub same_runtime : hello.runtime_id ≡ key
  pub same_version : hello.protocol_version ≡ current_protocol_version

request_id_test_iff : (a b : RequestId) → (request_id_test a b ≡ true) ↔ (a ≡ b)
request_id_test_iff a b = (
  λ h. ap (λ t. record { text = t }) (==→eq a.text b.text h),
  λ h. subst (λ (c : RequestId). (a.text == c.text) ≡ true) h (==_refl a.text),
)

string_test_iff : (a b : String) → ((a == b) ≡ true) ↔ (a ≡ b)
string_test_iff a b = (λ h. ==→eq a b h, λ h. subst (λ c. (a == c) ≡ true) h (==_refl a))

validate_server_hello_iff :
    (hello : ServerHello) (key : String) (id : RequestId) (s : NegotiatedSession)
    → (validate_server_hello hello key id ≡ ok s) ↔ Confirms id key hello × (s ≡ current_session)
unfolding validate_server_hello
validate_server_hello_iff hello key id s =
    let ids = request_id_test_iff hello.request_id id in
    let runtimes = string_test_iff hello.runtime_id key in
    let versions = version_test_iff hello.protocol_version current_protocol_version in
    (
      λ h. elim (Bool-cases (request_id_test hello.request_id id)) [
        | inr other ↦ absurd (ground (arith, h, other))
        | inl same ↦ elim (Bool-cases (hello.runtime_id == key)) [
          | inr stale ↦ absurd (ground (arith, h, same, stale))
          | inl own ↦ elim (Bool-cases (hello.protocol_version == current_protocol_version)) [
            | inr older ↦ absurd (ground (arith, h, same, own, older))
            | inl version ↦ (
              record {
                same_id = ids.0 same;
                same_runtime = runtimes.0 own;
                same_version = versions.0 version;
              },
              ground (arith, h, same, own, version, versions.0 version),
            )
          ]
        ]
      ],
      λ (c, e). ground (
        arith,
        ids.1 c.same_id,
        runtimes.1 c.same_runtime,
        versions.1 c.same_version,
        e,
        c.same_version,
      ),
    )

validate_rejection_fails :
    (r : HandshakeRejection) (key : String) (id : RequestId) (s : NegotiatedSession)
    → validate_rejection r key id ≢ ok s
unfolding validate_rejection
validate_rejection_fails r key id s h = elim (Bool-cases (same_request r.error.request_id id)) [
  | inr other ↦ absurd (ground (arith, h, other))
  | inl same ↦ elim (Bool-cases (r.runtime_id == key)) [
    | inr stale ↦ absurd (ground (arith, h, same, stale))
    | inl own ↦ absurd (ground (arith, h, same, own))
  ]
]

validate_rejection-stale :
    (r : HandshakeRejection) (key : String) (id : RequestId)
    → r.error.request_id ≡ some id
    → r.runtime_id ≢ key
    → validate_rejection r key id ≡ err (stale_handshake_error id)
unfolding validate_rejection
validate_rejection-stale r key id named stale =
    let same : same_request r.error.request_id id ≡ true =
      subst (λ o. same_request o id ≡ true) (sym named) (==_refl id.text) in
    elim (Bool-cases (r.runtime_id == key)) [
      | inl own ↦ absurd (stale (==→eq r.runtime_id key own))
      | inr other ↦ ground (arith, same, other)
    ]

-- What the client reads, if the daemon confirms its hello.
pub record Confirmed (id : RequestId) (key : String)
    (next : NextFrame (Result ServerHandshakeFrame String)) : Type 0 where
  pub hello : ServerHello
  pub read : next ≡ NextFrame.line (ok (ServerHandshakeFrame.accepted hello))
  pub confirms : Confirms id key hello

next_frame_iff :
    (id : RequestId) (key : String) (next : NextFrame (Result ServerHandshakeFrame String))
    (s : NegotiatedSession)
    → (perform_client_handshake id key (ok tt) (ok tt) (ok tt) next ≡ ok s)
      ↔ Confirmed id key next × (s ≡ current_session)
unfolding perform_client_handshake
next_frame_iff id key (NextFrame.line (ok (ServerHandshakeFrame.accepted hello))) s =
    let valid = validate_server_hello_iff hello key id s in
    (
      λ h. (record { hello = hello; read = refl; confirms = (valid.0 h).0 }, (valid.0 h).1),
      λ (c, e). valid.1 (subst (Confirms id key) (sym (line_inj (c.read))) c.confirms, e),
    )
  where
    line_inj :
        {a b : ServerHello}
        → ◌≡◌ {A = NextFrame (Result ServerHandshakeFrame String)}
            (NextFrame.line (ok (ServerHandshakeFrame.accepted a)))
            (NextFrame.line (ok (ServerHandshakeFrame.accepted b)))
        → a ≡ b
    line_inj h = ground (arith, h)
next_frame_iff id key (NextFrame.line (ok (ServerHandshakeFrame.rejected r))) s =
    (λ h. absurd (validate_rejection_fails r key id s h), λ (c, e). absurd (cc (c.read)))
next_frame_iff id key (NextFrame.line (err e)) s =
    (λ h. absurd (cc h), λ (c, e). absurd (cc (c.read)))
next_frame_iff id key (NextFrame.io e) s = (λ h. absurd (cc h), λ (c, e). absurd (cc (c.read)))
next_frame_iff id key (NextFrame.codec e) s = (λ h. absurd (cc h), λ (c, e). absurd (cc (c.read)))
next_frame_iff id key NextFrame.closed s = (λ h. absurd (cc h), λ (c, e). absurd (cc (c.read)))

-- Whatever answers, a client has a session exactly if its hello was encoded, written and flushed, and
-- the frame read accepts a hello with the id of the request, the key of the client's runtime and the
-- current version. The session then has that version.
pub perform_client_handshake_iff :
    (id : RequestId) (key : String) (encode write_all flush : Result (Unit {0}) String)
    (next : NextFrame (Result ServerHandshakeFrame String)) (s : NegotiatedSession)
    → (perform_client_handshake id key encode write_all flush next ≡ ok s)
      ↔ (encode ≡ ok tt)
        × (write_all ≡ ok tt)
        × (flush ≡ ok tt)
        × Confirmed id key next
        × (s ≡ current_session)
unfolding perform_client_handshake
perform_client_handshake_iff id key (ok u) (ok v) (ok w) next s =
    let read = next_frame_iff id key next s in
    (λ h. let (c, e) = read.0 h in (refl, refl, refl, c, e), λ (a, b, c, d, e). read.1 (d, e))
perform_client_handshake_iff id key (err x) write_all flush next s =
    (λ h. absurd (cc h), λ (a, b, c, d, e). absurd (cc a))
perform_client_handshake_iff id key (ok u) (err x) flush next s =
    (λ h. absurd (cc h), λ (a, b, c, d, e). absurd (cc b))
perform_client_handshake_iff id key (ok u) (ok v) (err x) next s =
    (λ h. absurd (cc h), λ (a, b, c, d, e). absurd (cc c))

-- The daemon's frame, as it comes to the client.
abbrev pub delivered : Option ServerHandshakeFrame → NextFrame (Result ServerHandshakeFrame String)
unfolding deserialize_frame
delivered none = NextFrame.closed
delivered (some frame) = NextFrame.line (deserialize_frame frame)

abbrev pub daemon_side :
    RequestId
    → String
    → ServerHandshakeIdentity
    → Option ServerHandshakeFrame × Result (Option NegotiatedSession) String
unfolding accept_client_handshake client_hello
daemon_side id key identity =
    accept_client_handshake identity FirstByte.arrived
      (Awaited.finished (NextFrame.line (ok (client_hello id key)))) (ok tt)

abbrev pub client_side :
    RequestId → String → Option ServerHandshakeFrame → Result NegotiatedSession IpcClientError
unfolding perform_client_handshake delivered
client_side id key frame = perform_client_handshake id key (ok tt) (ok tt) (ok tt) (delivered frame)

-- What both ends have after a handshake.
pub data Agree (id : RequestId) (key : String) (runtime_id : String)
    : Result (Option NegotiatedSession) String
      → Result NegotiatedSession IpcClientError
      → Type 0 where
  in_session :
      key ≡ runtime_id → Agree id key runtime_id (ok (some current_session)) (ok current_session)
  refused : key ≢ runtime_id → Agree id key runtime_id (ok none) (err (stale_handshake_error id))

-- If the frames are delivered, both ends have a session of the current version if the client's
-- runtime is the daemon's, and otherwise neither has: the client then learns that the endpoint is
-- another's.
pub handshake_agrees :
    (id : RequestId) (key : String) (identity : ServerHandshakeIdentity)
    → Agree id key identity.runtime_id
        (daemon_side id key identity).1
        (client_side id key (daemon_side id key identity).0)
unfolding daemon_side client_side accept_client_handshake answer_hello perform_client_handshake
handshake_agrees id key identity =
    if-elim Ends (not (key == identity.runtime_id)) (λ other. by_rejection (ground (arith, other)))
      (λ own. by_acceptance (ground (arith, own)))
  where
    Ends : ServerHandshakeFrame × Option NegotiatedSession → Type 0
    Ends (frame, session) =
        Agree id key identity.runtime_id (ok session) (client_side id key (some frame))

    hello : ServerHello
    hello = record {
      request_id = id;
      runtime_id = identity.runtime_id;
      daemon_instance_id = identity.daemon_instance_id;
      protocol_version = current_protocol_version;
    }

    by_acceptance :
        (key == identity.runtime_id) ≡ true
        → Ends (ServerHandshakeFrame.accepted hello, some current_session)
    by_acceptance own =
        let same = (string_test_iff key identity.runtime_id).0 own in
        let valid =
          (validate_server_hello_iff hello key id current_session).1
            (record { same_id = refl; same_runtime = sym same; same_version = refl }, refl) in
        subst (Agree id key identity.runtime_id (ok (some current_session))) (sym valid)
          (Agree.in_session same)

    by_rejection :
        (key == identity.runtime_id) ≡ false
        → Ends (rejecting id identity.runtime_id identity.daemon_instance_id stale_instance, none)
    by_rejection other =
        let differ : key ≢ identity.runtime_id =
          λ same. absurd (cc (other, (string_test_iff key identity.runtime_id).1 same)) in
        subst (Agree id key identity.runtime_id (ok none))
          (sym (
            validate_rejection-stale
              (record {
                runtime_id = identity.runtime_id;
                daemon_instance_id = identity.daemon_instance_id;
                error = with_request_id id stale_instance;
              })
              key id refl (λ same. differ (sym same))))
          (Agree.refused differ)
