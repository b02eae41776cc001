-- ===== src/Protocol/Identifiers/Laws.antt =====
-- Which texts are request ids and error codes.
use cadder.Base.{
  ℕ, String, ◌≡◌, ◌≢◌, refl, ◌≤◌, ◌<◌, ◌⊎◌, ◌↔◌, inl, inr, Bool, true, false, not, List, [], ◌∷◌,
  Result, ok, err, length, any, All, ◌==◌, string_eq, ==→eq, ==_refl, arith, subst, Bool-cases,
}
use cadder.Protocol.Identifiers.{
  as_bytes, first_byte, is_request_byte, IdentifierError, validate_request_bytes,
  validate_request_id, RequestId, owning, parse_request_id,
}

abbrev pub IsLowercase : ℕ → Type 0
IsLowercase b = (97 ≤ b) × (b ≤ 122)

abbrev pub IsUppercase : ℕ → Type 0
IsUppercase b = (65 ≤ b) × (b ≤ 90)

abbrev pub IsDigit : ℕ → Type 0
IsDigit b = (48 ≤ b) × (b ≤ 57)

abbrev pub IsAlphanumeric : ℕ → Type 0
IsAlphanumeric b = IsLowercase b ⊎ IsUppercase b ⊎ IsDigit b

-- A letter, a digit, or one of `-`, `.`, `:` and `_`.
abbrev pub IsRequestByte : ℕ → Type 0
IsRequestByte b = IsAlphanumeric b ⊎ (b ≡ 45) ⊎ (b ≡ 46) ⊎ (b ≡ 58) ⊎ (b ≡ 95)

pub record IsRequestId (value : String) : Type 0 where
  pub some_bytes : 0 < length (as_bytes value)
  pub few_bytes : length (as_bytes value) ≤ 128
  pub not_reserved : value ≢ "unknown"
  pub starts : IsAlphanumeric (first_byte (as_bytes value))
  pub bytes : All IsRequestByte (as_bytes value)

IsRequestByte-iff : (b : ℕ) → (is_request_byte b ≡ true) ↔ IsRequestByte b
IsRequestByte-iff b = ground arith

request_bytes_iff :
    (bs : List ℕ) → (any (λ b. not (is_request_byte b)) bs ≡ false) ↔ All IsRequestByte bs
request_bytes_iff [] = ((λ h. tt), (λ h. refl))
request_bytes_iff (b ∷ bs) = ground (arith, IsRequestByte-iff b, request_bytes_iff bs)

validate_request_bytes_iff :
    (reserved : Bool) (bs : List ℕ)
    → (validate_request_bytes reserved bs ≡ ok tt)
      ↔ (0 < length bs)
        × (length bs ≤ 128)
        × (reserved ≡ false)
        × IsAlphanumeric (first_byte bs)
        × All IsRequestByte bs
unfolding validate_request_bytes
validate_request_bytes_iff reserved [] =
    ((λ h. absurd (cc h)), (λ (p, few, free, starts, bytes). absurd (omega (arith, p))))
validate_request_bytes_iff reserved (b ∷ bs) = (
  λ h. ground (arith, h, request_bytes_iff (b ∷ bs)),
  λ (p, few, free, starts, bytes).
      ground (arith, few, free, starts, (request_bytes_iff (b ∷ bs)).1 bytes),
)

owning_iff :
    (v : String) (r : Result (Unit {0}) IdentifierError)
    → (owning {A = RequestId} (record { text = v }) r ≡ ok (record { text = v })) ↔ (r ≡ ok tt)
owning_iff v (ok u) = ((λ h. refl), (λ h. refl))
owning_iff v (err e) = ((λ h. absurd (cc h)), (λ h. absurd (cc h)))

reserved_iff : (v : String) → ((v == "unknown") ≡ false) ↔ (v ≢ "unknown")
reserved_iff v = (
  λ h e. absurd (cc (h, eq_true v "unknown" e)),
  λ h. elim (Bool-cases (v == "unknown")) [
    | inl same ↦ absurd (h (==→eq v "unknown" same))
    | inr apart ↦ apart
  ],
)
  where
    eq_true : (a b : String) → a ≡ b → (a == b) ≡ true
    eq_true a b e = subst (λ c. (a == c) ≡ true) e (==_refl a)

-- A text is accepted as a request id exactly if it has 1 to 128 bytes, is not `unknown`, starts with
-- an ASCII letter or digit, and has only ASCII letters, digits, `-`, `.`, `:` and `_`.
pub parse_request_id_iff :
    (v : String) → (parse_request_id v ≡ ok (record { text = v })) ↔ IsRequestId v
unfolding parse_request_id validate_request_id
parse_request_id_iff v =
    let bytes = validate_request_bytes_iff (v == "unknown") (as_bytes v) in
    let owned = owning_iff v (validate_request_id v) in
    (
      λ h.
          let (p, few, free, starts, all) = bytes.0 (owned.0 h) in
          record {
            some_bytes = p;
            few_bytes = few;
            not_reserved = (reserved_iff v).0 free;
            starts = starts;
            bytes = all;
          },
      λ i. owned.1 (
          bytes.1
            (i.some_bytes, i.few_bytes, (reserved_iff v).1 i.not_reserved, i.starts, i.bytes)),
    )
