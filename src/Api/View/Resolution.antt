-- ===== src/Api/View/Resolution.antt =====
-- Which registration a domain names.
use cadder.Base.{
  ◌⊎◌, ◌↔◌, ◌≤◌, length, none, some, true, sym, subst, ==→eq, eq→==, any, string_eq, ◌==◌, String,
  ◌≡◌, ◌∙◌, refl, ap, ◌&&◌, Option, List, [], ◌∷◌, map, filter, Result, ok, err, arith, Bool-cases,
  inl, inr,
}
use cadder.Api.View.{
  SelectedDomain, DomainResolveError, not_found, ambiguous, passes, has_name, matching, selected,
  resolve_domain,
}
use cadder.Caddy.Domains.{canonicalize_domain}
use cadder.Protocol.Snapshot.{GuiStateSnapshot}
use mathlib.Core.List.{Memᴰ}
use cadder.Protocol.State.{RegisteredDomain, EntrypointRegistration}

-- The ids of the registrations that pass and have the domain, in their order.
abbrev candidates : String → Option String → List EntrypointRegistration → List String
candidates canonical registration rs =
    map (λ (r : EntrypointRegistration). r.registration_id)
      (filter (λ r. passes registration r && has_name canonical r) rs)

-- The answer by the candidates: the only one, or an error that names what there is.
abbrev answer_by : String → Option String → List String → Result SelectedDomain DomainResolveError
answer_by canonical registration [] = err (not_found canonical registration)
answer_by canonical registration (id ∷ []) =
    ok (record { registration_id = id; canonical_domain = canonical })
answer_by canonical registration (id ∷ other ∷ more) = err (ambiguous canonical (id ∷ other ∷ more))

abbrev named : String → String → SelectedDomain
named canonical id = record { registration_id = id; canonical_domain = canonical }

matching_lem :
    (canonical : String) (registration : Option String) (rs : List EntrypointRegistration)
    → matching canonical registration rs
      ≡ map (named canonical) (candidates canonical registration rs)
matching_lem canonical registration [] = refl
matching_lem canonical registration (r ∷ rs) =
    let rest = matching_lem canonical registration rs in
    elim (Bool-cases (passes registration r)) [
      | inr other ↦ ground (arith, other, rest)
      | inl own ↦ elim (Bool-cases (has_name canonical r)) [
        | inr without ↦ ground (arith, own, without, rest)
        | inl with_name ↦ ground (arith, own, with_name, rest)
      ]
    ]

ids_of :
    (canonical : String) (ids : List String)
    → map (λ (d : SelectedDomain). d.registration_id) (map (named canonical) ids) ≡ ids
ids_of canonical [] = refl
ids_of canonical (id ∷ ids) = ap (λ l. id ∷ l) (ids_of canonical ids)

selected_lem :
    (canonical : String) (registration : Option String) (ids : List String)
    → selected canonical registration (map (named canonical) ids)
      ≡ answer_by canonical registration ids
selected_lem canonical registration [] = refl
selected_lem canonical registration (id ∷ []) = refl
selected_lem canonical registration (id ∷ other ∷ more) =
    ap (λ l. err (ambiguous canonical (id ∷ other ∷ l))) (ids_of canonical more)

resolve_domain_by :
    (domain_to_ascii : String → Option String) (s : GuiStateSnapshot) (domain : String)
    (registration : Option String)
    → resolve_domain domain_to_ascii s domain registration
      ≡ answer_by
          (canonicalize_domain domain_to_ascii domain)
          registration
          (candidates (canonicalize_domain domain_to_ascii domain) registration s.registrations)
unfolding resolve_domain
resolve_domain_by domain_to_ascii s domain registration =
    let canonical = canonicalize_domain domain_to_ascii domain in
    ap (selected canonical registration) (matching_lem canonical registration s.registrations)
    ∙ selected_lem canonical registration (candidates canonical registration s.registrations)

-- The request allows the registration, and one of its domains has the canonical name.
abbrev IsAllowed : Option String → EntrypointRegistration → Type 0
IsAllowed none r = Unit
IsAllowed (some id) r = r.registration_id ≡ id

abbrev pub HasDomain : String → Option String → EntrypointRegistration → Type 0
HasDomain canonical registration r =
    IsAllowed registration r
    × ((d : RegisteredDomain) × Memᴰ d r.registered_domains × (d.name.canonical ≡ canonical))

-- The ids are those of the registrations with the domain, each, in their order.
abbrev pub Picks : String → Option String → List EntrypointRegistration → List String → Type 0
Picks canonical registration [] ids = ids ≡ []
Picks canonical registration (r ∷ rs) ids =
    ((¬ HasDomain canonical registration r) × Picks canonical registration rs ids)
    ⊎ ((rest : List String) × (ids ≡ r.registration_id ∷ rest)
        × HasDomain canonical registration r
        × Picks canonical registration rs rest)

-- The only registration with the domain, none, or several.
abbrev pub IsResolved :
    String
    → Option String
    → List EntrypointRegistration
    → Result SelectedDomain DomainResolveError
    → Type 0
IsResolved canonical registration rs (ok s) =
    (s.canonical_domain ≡ canonical) × Picks canonical registration rs (s.registration_id ∷ [])
IsResolved canonical registration rs (err (not_found named wanted)) =
    (named ≡ canonical) × (wanted ≡ registration) × Picks canonical registration rs []
IsResolved canonical registration rs (err (ambiguous named ids)) =
    (named ≡ canonical) × (2 ≤ length ids) × Picks canonical registration rs ids

passes-IsAllowed :
    (registration : Option String) (r : EntrypointRegistration)
    → (passes registration r ≡ true) ↔ IsAllowed registration r
passes-IsAllowed none r = ((λ h. tt), (λ h. refl))
passes-IsAllowed (some id) r = (==→eq r.registration_id id, eq→== r.registration_id id)

any-domain :
    (canonical : String) (ds : List RegisteredDomain)
    → any (λ d. d.name.canonical == canonical) ds ≡ true
    → (d : RegisteredDomain) × Memᴰ d ds × (d.name.canonical ≡ canonical)
any-domain canonical [] h = absurd (cc h)
any-domain canonical (d ∷ ds) h = elim (Bool-cases (d.name.canonical == canonical)) [
  | inl own ↦ (d, Memᴰ.head refl, ==→eq d.name.canonical canonical own)
  | inr other ↦
      let (e, listed, same) = any-domain canonical ds (ground (arith, h, other)) in
      (e, Memᴰ.tail listed, same)
]

domain-any :
    (canonical : String) (ds : List RegisteredDomain) (d : RegisteredDomain)
    → Memᴰ d ds
    → d.name.canonical ≡ canonical
    → any (λ d. d.name.canonical == canonical) ds ≡ true
domain-any canonical (e ∷ ds) d (Memᴰ.head same) h = ground (
  arith,
  eq→== e.name.canonical canonical (ap (λ (z : RegisteredDomain). z.name.canonical) (sym same) ∙ h),
)
domain-any canonical (e ∷ ds) d (Memᴰ.tail m) h = ground (arith, domain-any canonical ds d m h)
domain-any canonical [] d m h = elim m [ ]

candidates-Picks :
    (canonical : String) (registration : Option String) (rs : List EntrypointRegistration)
    → Picks canonical registration rs (candidates canonical registration rs)
candidates-Picks canonical registration [] = refl
candidates-Picks canonical registration (r ∷ rs) =
    let rest = candidates-Picks canonical registration rs in
    elim (Bool-cases (passes registration r)) [
      | inr other ↦
          inl ((λ has. cc (other, (passes-IsAllowed registration r).1 has.0)), rw other rest)
      | inl own ↦ elim (Bool-cases (has_name canonical r)) [
        | inr without ↦ inl (
          (λ (allowed, (d, listed, same)).
              cc (without, domain-any canonical r.registered_domains d listed same)),
          rw (own, without) rest,
        )
        | inl with_name ↦ inr (
          candidates canonical registration rs,
          rw (own, with_name) refl,
          (
            (passes-IsAllowed registration r).0 own,
            any-domain canonical r.registered_domains with_name,
          ),
          rest,
        )
      ]
    ]

answer_by-IsResolved :
    (canonical : String) (registration : Option String) (rs : List EntrypointRegistration)
    (ids : List String)
    → Picks canonical registration rs ids
    → IsResolved canonical registration rs (answer_by canonical registration ids)
answer_by-IsResolved canonical registration rs [] h = (refl, refl, h)
answer_by-IsResolved canonical registration rs (id ∷ []) h = (refl, h)
answer_by-IsResolved canonical registration rs (id ∷ other ∷ more) h = (refl, omega arith, h)

-- A domain names a registration exactly if that is the only one that the request allows and that has
-- the domain's canonical name. It is not found if there is none, and ambiguous if there are several,
-- which the error lists, each, in their order.
pub resolve_domain_lem :
    (domain_to_ascii : String → Option String) (s : GuiStateSnapshot) (domain : String)
    (registration : Option String)
    → IsResolved
        (canonicalize_domain domain_to_ascii domain)
        registration
        s.registrations
        (resolve_domain domain_to_ascii s domain registration)
resolve_domain_lem domain_to_ascii s domain registration =
    let canonical = canonicalize_domain domain_to_ascii domain in
    subst (IsResolved canonical registration s.registrations)
      (sym (resolve_domain_by domain_to_ascii s domain registration))
      (answer_by-IsResolved canonical registration s.registrations
        (candidates canonical registration s.registrations)
        (candidates-Picks canonical registration s.registrations))
