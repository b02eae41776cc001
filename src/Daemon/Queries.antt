-- ===== src/Daemon/Queries.antt =====
-- crates/cadder-daemon/src/state/log_queries.rs: the log query of the daemon.
use cadder.Base.{
  String, ◌≡◌, refl, ◌↔◌, ◌⊎◌, inl, inr, Bool, true, ◌&&◌, ◌||◌, Option, List, [], ◌∷◌, ◌==◌,
  string_eq, if◌then◌else◌, any, Any, unwrap_or, max, min, arith, ◌∙◌, sym, Bool-cases, ==→eq,
  subst, ◌≢◌, option_test_iff,
}
use cadder.Base.Dict.{values}
use cadder.Daemon.{DaemonState}
use cadder.LogStore.{query}
use cadder.Protocol.Logs.{LogStreamIdentity, QueryLogsPayload, QueryLogsResponse, stream_beq}
use cadder.Protocol.State.{is_enabled, RegisteredDomain, EntrypointRegistration}
use text.Mathlib.TextEquality.{eq_iff}

-- A registration whose own stream, or a domain's, is the stream, with that one enabled.
unfoldable pub feeds : LogStreamIdentity → EntrypointRegistration → Bool
unfolding is_enabled
feeds stream r =
    stream_beq r.log_stream stream && is_enabled r.activation_state
    || any
        (λ (d : RegisteredDomain). stream_beq d.log_stream stream && is_enabled d.activation_state)
        r.registered_domains

module _ {S : Type 0} where
  unfoldable pub stream_is_active : LogStreamIdentity → DaemonState S → Bool
  unfolding feeds
  stream_is_active stream d =
      if stream.stream_id == "runtime" || stream.stream_id == "runtime-control"
      then true
      else any (feeds stream) (values d.registrations)

  -- `query_logs`; a fault is one of the table.
  unfoldable pub query_logs : Option String → QueryLogsPayload → DaemonState S → QueryLogsResponse
  unfolding stream_is_active query
  query_logs fault p d =
      let result =
        query fault (record { stream = p.stream; limit = min (max (unwrap_or p.limit 100) 1) 200 })
          (stream_is_active p.stream d) d.logs in
      record {
        request_id = "";
        accepted = true;
        message = "Caddy logs returned.";
        stream = p.stream;
        stream_status = result.status;
        entries = result.entries;
      }

-- The stream is that of the registration or of one of its domains, and that one is enabled.
abbrev pub Feeds : LogStreamIdentity → EntrypointRegistration → Type 0
Feeds stream r =
    ((r.log_stream ≡ stream) × (is_enabled r.activation_state ≡ true))
    ⊎ Any
        (λ (d : RegisteredDomain). (d.log_stream ≡ stream) × (is_enabled d.activation_state ≡ true))
        r.registered_domains

stream_beq_iff : (a b : LogStreamIdentity) → (stream_beq a b ≡ true) ↔ (a ≡ b)
stream_beq_iff a b = (
  λ h. cc (
    (eq_iff a.stream_id b.stream_id).0 (ground (arith, h)),
    (option_test_iff a.domain_key b.domain_key).0 (ground (arith, h)),
    (eq_iff a.channel b.channel).0 (ground (arith, h)),
  ),
  λ e.
      subst (λ c. stream_beq a c ≡ true) e
        (ground (
          arith,
          (eq_iff a.stream_id a.stream_id).1 refl,
          (option_test_iff a.domain_key a.domain_key).1 refl,
          (eq_iff a.channel a.channel).1 refl,
        )),
)

any_iff :
    {A : Type 0} (p : A → Bool) (P : A → Type 0) (xs : List A)
    → ((x : A) → (p x ≡ true) ↔ P x)
    → (any p xs ≡ true) ↔ Any P xs
any_iff p P [] h = ((λ e. cc e), (λ v. absurd v))
any_iff p P (x ∷ xs) h = (
  λ e. elim (Bool-cases (p x)) [
    | inl hit ↦ inl ((h x).0 hit)
    | inr miss ↦ inr ((any_iff p P xs h).0 (ground (arith, e, miss)))
  ],
  λ v. elim v [
    | inl hit ↦ ground (arith, (h x).1 hit)
    | inr later ↦ ground (arith, (any_iff p P xs h).1 later)
  ],
)

domains_iff :
    (stream : LogStreamIdentity) (ds : List RegisteredDomain)
    → (any
          (λ (d : RegisteredDomain).
            stream_beq d.log_stream stream && is_enabled d.activation_state)
          ds
        ≡ true)
      ↔ Any
          (λ (d : RegisteredDomain).
            (d.log_stream ≡ stream) × (is_enabled d.activation_state ≡ true))
          ds
domains_iff stream ds = any_iff _ _ ds (λ (d : RegisteredDomain). (
  λ e. ((stream_beq_iff d.log_stream stream).0 (ground (arith, e)), ground (arith, e)),
  λ v. ground (arith, (stream_beq_iff d.log_stream stream).1 v.0, v.1),
))

feeds_iff :
    (stream : LogStreamIdentity) (r : EntrypointRegistration)
    → (feeds stream r ≡ true) ↔ Feeds stream r
unfolding feeds
feeds_iff stream r = (
  λ e. elim (Bool-cases (stream_beq r.log_stream stream && is_enabled r.activation_state)) [
    | inl own ↦
        inl ((stream_beq_iff r.log_stream stream).0 (ground (arith, own)), ground (arith, own))
    | inr other ↦ inr ((domains_iff stream r.registered_domains).0 (ground (arith, e, other)))
  ],
  λ v. elim v [
    | inl own ↦ ground (arith, (stream_beq_iff r.log_stream stream).1 own.0, own.1)
    | inr other ↦ ground (arith, (domains_iff stream r.registered_domains).1 other)
  ],
)

-- A stream that is not the runtime's is active exactly when it is the stream of an enabled
-- registration, or of an enabled domain of some registration.
pub stream_is_active_iff :
    {S : Type 0} (stream : LogStreamIdentity) (d : DaemonState S)
    → stream.stream_id ≢ "runtime"
    → stream.stream_id ≢ "runtime-control"
    → (stream_is_active stream d ≡ true) ↔ Any (Feeds stream) (values d.registrations)
unfolding stream_is_active
stream_is_active_iff stream d n m =
    let searched : stream_is_active stream d ≡ any (feeds stream) (values d.registrations) =
      ground (
        arith,
        λ (e : (stream.stream_id == "runtime") ≡ true). n (==→eq _ _ e),
        λ (e : (stream.stream_id == "runtime-control") ≡ true). m (==→eq _ _ e),
      ) in
    let found = any_iff (feeds stream) (Feeds stream) (values d.registrations) (feeds_iff stream) in
    (λ e. found.0 (sym searched ∙ e), λ v. searched ∙ found.1 v)
