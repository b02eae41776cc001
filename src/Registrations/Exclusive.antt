-- ===== src/Registrations/Exclusive.antt =====
-- The invariant of the registration map: keys are the registrations' ids, and no domain is served
-- by two registrations. Every edit that the mutations make keeps it.
pub mod Edits
use cadder.Base.{
  ℕ, String, ◌≡◌, refl, ◌≢◌, ◌⊎◌, inl, inr, Bool, true, false, not, ◌&&◌, ◌||◌, Option, none, some,
  List, [], ◌∷◌, ◌==◌, string_eq, arith, any, ==→eq, eq→==, Bool-cases, Option-cases, if◌then◌else◌,
  sym, ap, subst, ◌∙◌, All,
}
use cadder.Base.Dict.{
  Dict, lookup, insert, remove, adjust, values, Distinct, lookup-insert, lookup-remove,
  lookup-adjust, All-lookup, All-insert, All-remove, All-adjust, Distinct-insert, Distinct-remove,
  Distinct-adjust,
}
use cadder.Protocol.State.{
  ActivationState, is_enabled, from_enabled, RegisteredDomain, EntrypointRegistration,
}
use cadder.Registrations.{
  Registrations, active_domain_ownership_conflict, set_domain, with_domain, with_activation,
}
use cadder.Registrations.Conflicts.{serves, conflict_none}
use mathlib.Core.Option
use text.Mathlib.TextEquality.{eq_iff}

abbrev pub KeyMatches : String × EntrypointRegistration → Type 0
KeyMatches e = e.1.registration_id ≡ e.0

-- Two keys whose registrations serve one domain are the same key.
abbrev pub SingleOwner : Registrations → Type 0
SingleOwner m =
    (k i j : String) (r s : EntrypointRegistration)
    → lookup i m ≡ some r
    → lookup j m ≡ some s
    → serves k r ≡ true
    → serves k s ≡ true
    → i ≡ j

pub record IsExclusive (m : Registrations) : Type 0 where
  pub keyed : All KeyMatches m
  pub distinct : Distinct m
  pub single : SingleOwner m

pub empty-IsExclusive : IsExclusive []
empty-IsExclusive = record {
  keyed = tt;
  distinct = tt;
  single = λ k i j r s e f h g. absurd (unfold lookup in cc e);
}

-- A map that serves less than one with single owners has single owners too.
module _ (m n : Registrations)
    (less : (j : String) (s : EntrypointRegistration)
      → lookup j n ≡ some s
      → (r : EntrypointRegistration) × (lookup j m ≡ some r)
        × ((k : String) → serves k s ≡ true → serves k r ≡ true)) where
  pub SingleOwner-of_less : SingleOwner m → SingleOwner n
  SingleOwner-of_less own k i j r s er es hr hs =
      let (r', er', fr) = less i r er in
      let (s', es', fs) = less j s es in own k i j r' s' er' es' (fr k hr) (fs k hs)

-- A map that differs from one with single owners at a key without conflict has single owners too.
module _ (m n : Registrations) (id : String)
    (same : (j : String) → j ≢ id → lookup j n ≡ lookup j m) (keyed : All KeyMatches n)
    (free : active_domain_ownership_conflict n id ≡ none) where
  clash :
      (k j : String) (r s : EntrypointRegistration)
      → lookup id n ≡ some r
      → lookup j n ≡ some s
      → j ≢ id
      → serves k r ≡ true
      → serves k s ≡ true
      → ⊥
  clash k j r s er es ne hr hs =
      let key : s.registration_id ≡ j = All-lookup KeyMatches j s n keyed es in
      cc (conflict_none k id j n r s free er es (λ e. ne (sym key ∙ e)) hr, hs)

  pub SingleOwner-of_free : SingleOwner m → SingleOwner n
  SingleOwner-of_free own k i j r s er es hr hs = elim (Bool-cases (i == id)) [
    | inl at_i ↦ elim (Bool-cases (j == id)) [
      | inl at_j ↦ ==→eq i id at_i ∙ sym (==→eq j id at_j)
      | inr off_j ↦ absurd (
          clash k j r s (subst (λ x. lookup x n ≡ some r) (==→eq i id at_i) er) es
            (λ e. cc (eq→== j id e, off_j)) hr hs)
    ]
    | inr off_i ↦ elim (Bool-cases (j == id)) [
      | inl at_j ↦ absurd (
          clash k i s r (subst (λ x. lookup x n ≡ some s) (==→eq j id at_j) es) er
            (λ e. cc (eq→== i id e, off_i)) hs hr)
      | inr off_j ↦
          own k i j r s (sym (same i (λ e. cc (eq→== i id e, off_i))) ∙ er)
            (sym (same j (λ e. cc (eq→== j id e, off_j))) ∙ es) hr hs
    ]
  ]
