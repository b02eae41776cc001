-- ===== src/Caddy/Conflicts/Agreement.antt =====
-- How `detect_conflicts` agrees with the ownership test of the registration map.
use cadder.Base.{
  ◌≤◌, String, ◌≡◌, refl, true, false, ◌&&◌, none, some, List, [], ◌∷◌, arith, ◌==◌, string_eq, All,
  any, subst, Bool-cases, inl, inr,
}
use cadder.Base.Dict.{lookup, values, Distinct, Absent, lookup-Absent, All-of-lookup}
use cadder.Caddy.Conflicts.{detect_conflicts}
use cadder.Protocol.State.{is_enabled, RegisteredDomain, EntrypointRegistration}
use cadder.Registrations.{Registrations}
use cadder.Registrations.Conflicts.{serves}
use cadder.Registrations.Exclusive.{SingleOwner, IsExclusive}
use text.Mathlib.TextEquality.{eq_iff}
use cadder.Caddy.Conflicts.Laws.{domain_claims, claims_of, claims, detect_conflicts_iff}

domain_claims_zero :
    (k : String) (ds : List RegisteredDomain)
    → any (λ d. is_enabled d.activation_state && d.name.canonical == k) ds ≡ false
    → domain_claims k ds ≡ 0
unfolding domain_claims
domain_claims_zero k [] h = refl
domain_claims_zero k (d ∷ ds) h = ground (arith, h, domain_claims_zero k ds)

claims_of_zero : (k : String) (r : EntrypointRegistration) → serves k r ≡ false → claims_of k r ≡ 0
unfolding claims_of serves
claims_of_zero k r h = ground (arith, domain_claims_zero k r.registered_domains)

-- An enabled registration names each of its enabled domains once.
abbrev pub NamesOnce : String × EntrypointRegistration → Type 0
NamesOnce e = (k : String) → claims_of k e.1 ≤ 1

claims_none :
    (k : String) (m : Registrations)
    → All (λ (e : String × EntrypointRegistration). serves k e.1 ≡ false) m
    → claims k (values m) ≡ 0
unfolding claims
claims_none k [] h = refl
claims_none k ((j, r) ∷ m) h = omega (arith, claims_of_zero k r h.0, claims_none k m h.1)

lookup-cons_other :
    (j : String) (r : EntrypointRegistration) (m : Registrations) (a : String)
    (x : EntrypointRegistration)
    → Absent j m
    → lookup a m ≡ some x
    → lookup a ((j, r) ∷ m) ≡ some x
unfolding lookup
lookup-cons_other j r m a x absent e = ground (arith, eq_iff j a, e, lookup-Absent j m absent)

lookup-cons_self :
    (j : String) (r : EntrypointRegistration) (m : Registrations) → lookup j ((j, r) ∷ m) ≡ some r
unfolding lookup
lookup-cons_self j r m = ground (arith, eq_iff j j)

SingleOwner-tail :
    (j : String) (r : EntrypointRegistration) (m : Registrations)
    → Absent j m
    → SingleOwner ((j, r) ∷ m)
    → SingleOwner m
SingleOwner-tail j r m absent own k a b x y ea eb =
    own k a b x y (lookup-cons_other j r m a x absent ea) (lookup-cons_other j r m b y absent eb)

-- What the head serves, the tail does not.
serves-tail :
    (k j : String) (r : EntrypointRegistration) (m : Registrations)
    → Absent j m
    → SingleOwner ((j, r) ∷ m)
    → serves k r ≡ true
    → (a : String) (x : EntrypointRegistration) → lookup a m ≡ some x
    → serves k x ≡ false
serves-tail k j r m absent own busy a x e = elim (Bool-cases (serves k x)) [
  | inr free ↦ free
  | inl taken ↦
      let same =
        own k j a r x (lookup-cons_self j r m) (lookup-cons_other j r m a x absent e) busy taken in
      absurd (cc (e, subst (λ y. lookup y m ≡ none) same (lookup-Absent j m absent)))
]

claims_le :
    (k : String) (m : Registrations)
    → Distinct m
    → SingleOwner m
    → All NamesOnce m
    → claims k (values m) ≤ 1
unfolding claims
claims_le k [] d own once = omega arith
claims_le k ((j, r) ∷ m) d own once = elim (Bool-cases (serves k r)) [
  | inr idle ↦
      omega
        (arith, claims_of_zero k r idle, claims_le k m d.1 (SingleOwner-tail j r m d.0 own) once.1)
  | inl busy ↦ omega (
    arith,
    once.0 k,
    claims_none k m
        (All-of-lookup (λ e. serves k e.1 ≡ false) m d.1 (serves-tail k j r m d.0 own busy)),
  )
]

-- In a map without shared domains, whose registrations name each domain once, the configuration
-- step finds no conflict.
pub detect_conflicts-IsExclusive :
    (m : Registrations) → IsExclusive m → All NamesOnce m → detect_conflicts (values m) ≡ []
detect_conflicts-IsExclusive m x once =
    (detect_conflicts_iff (values m)).1 (λ k. claims_le k m x.distinct x.single once)
