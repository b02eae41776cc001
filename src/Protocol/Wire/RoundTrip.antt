-- ===== src/Protocol/Wire/RoundTrip.antt =====
-- A response is read as it was written.
use cadder.Base.{
  String, ◌≡◌, refl, sym, subst, ap, ◌∙◌, ◌↔◌, true, Option, none, some, Result, ok, err, arith, [],
  ==→eq, ==_refl, string_eq, Bool-cases, inl, inr,
}
use cadder.Protocol.Errors.{ProtocolError}
use cadder.Protocol.Identifiers.{RequestId}
use cadder.Protocol.Wire.{
  ResponseOutcome, success, failure, ResponseEnvelope, WireResponse, serialize_response, result_of,
  failure_of, same_request, outcome_of, enveloped, deserialize_response,
}

-- The error of a failed response names the request that it answers.
abbrev OutcomeFits : {T : Type 0} → RequestId → ResponseOutcome T → Type 0
OutcomeFits id (success result) = Unit {0}
OutcomeFits id (failure error) = error.request_id ≡ some id

abbrev pub IsCorrelated : {T : Type 0} → ResponseEnvelope T → Type 0
IsCorrelated e = OutcomeFits e.request_id e.outcome

same_request_iff :
    (o : Option RequestId) (id : RequestId) → (same_request o id ≡ true) ↔ (o ≡ some id)
same_request_iff none id = ((λ h. absurd (cc h)), (λ h. absurd (cc h)))
same_request_iff (some a) id = (
  λ h. ap some (ap (λ t. record { text = t }) (==→eq a.text id.text h)),
  λ h. ground (arith, h, ==_refl id.text),
)

outcome_of_reads :
    {T : Type 0} (id : RequestId) (r : Option T) (x : Option ProtocolError) (o : ResponseOutcome T)
    → outcome_of id r x ≡ ok o
    → (result_of o ≡ r) × (failure_of o ≡ x) × OutcomeFits id o
unfolding outcome_of
outcome_of_reads id (some v) none (success u) h = ground (arith, h)
outcome_of_reads id (some v) none (failure e) h = absurd (cc h)
outcome_of_reads id none none o h = absurd (cc h)
outcome_of_reads id (some v) (some e) o h = absurd (cc h)
outcome_of_reads id none (some e) (success u) h = elim (Bool-cases (same_request e.request_id id)) [
  | inl same ↦ absurd (ground (arith, h, same))
  | inr apart ↦ absurd (ground (arith, h, apart))
]
outcome_of_reads id none (some e) (failure f) h = elim (Bool-cases (same_request e.request_id id)) [
  | inl same ↦
      let error : f ≡ e = ground (arith, h, same) in
      (
        refl,
        ap some error,
        ap (λ (g : ProtocolError). g.request_id) error ∙ (same_request_iff e.request_id id).0 same,
      )
  | inr apart ↦ absurd (ground (arith, h, apart))
]

outcome_of_writes :
    {T : Type 0} (id : RequestId) (o : ResponseOutcome T)
    → OutcomeFits id o
    → outcome_of id (result_of o) (failure_of o) ≡ ok o
unfolding outcome_of
outcome_of_writes id (success u) h = refl
outcome_of_writes id (failure e) h =
    let same = (same_request_iff e.request_id id).1 h in ground (arith, same)

enveloped_iff :
    {T : Type 0} (w : WireResponse T) (r : Result (ResponseOutcome T) String)
    (e : ResponseEnvelope T)
    → (enveloped w r ≡ ok e)
      ↔ (r ≡ ok e.outcome)
        × (e.protocol_version ≡ w.protocol_version)
        × (e.operation ≡ w.operation)
        × (e.request_id ≡ w.request_id)
enveloped_iff w (err x) e = ((λ h. absurd (cc h)), (λ (h, v, o, i). absurd (cc h)))
enveloped_iff w (ok x) e = ((λ h. ground (arith, h)), (λ (h, v, o, i). ground (arith, h, v, o, i)))

-- The object without the members that the reader does not know.
abbrev pub known : {T : Type 0} → WireResponse T → WireResponse T
known w = record w { additional = [] }

-- A response object is read as an envelope exactly if, but for members of other names, it is what that
-- envelope is written as, and the envelope's error, if it has one, names its request. In particular what `success` and `failure` make
-- comes back as it was.
pub deserialize_response_iff :
    {T : Type 0} (w : WireResponse T) (e : ResponseEnvelope T)
    → (deserialize_response w ≡ ok e) ↔ (serialize_response e ≡ known w) × IsCorrelated e
unfolding deserialize_response serialize_response
deserialize_response_iff {T} w e =
    let parts = enveloped_iff w (outcome_of w.request_id w.result w.error) e in
    (
      λ h.
          let (outcome, version, operation, id) = parts.0 h in
          let (result, error, fits) =
            outcome_of_reads w.request_id w.result w.error e.outcome outcome in
          (
            ground (arith, version, operation, id, result, error),
            subst (λ i. OutcomeFits i e.outcome) (sym id) fits,
          ),
      λ (written, fits). parts.1 (
        subst (λ (v : WireResponse T). outcome_of v.request_id v.result v.error ≡ ok e.outcome)
            written (outcome_of_writes e.request_id e.outcome fits),
        ap (λ (v : WireResponse T). v.protocol_version) written,
        ap (λ (v : WireResponse T). v.operation) written,
        ap (λ (v : WireResponse T). v.request_id) written,
      ),
    )
