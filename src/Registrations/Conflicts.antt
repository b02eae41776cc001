-- ===== src/Registrations/Conflicts.antt =====
-- When a candidate registration would take a domain that another one serves.
pub mod Real
use cadder.Base.{
  String, ◌≡◌, refl, ◌≢◌, ◌⊎◌, inl, inr, Bool, true, false, not, ◌&&◌, ◌||◌, Option, none, some,
  List, [], ◌∷◌, ◌++◌, map, ◌==◌, string_eq, arith, any, filter, ==→eq, eq→==, Bool-cases,
  Option-cases, ==_refl, sym, ap,
}
use cadder.Base.Dict.{Dict, lookup, insert, values, lookup-insert}
use cadder.Protocol.State.{is_enabled, RegisteredDomain, EntrypointRegistration}
use cadder.Registrations.{
  Registrations, DomainOwnershipConflict, enabled_domains, owner_entry, owner_pairs, collect,
  first_owned, candidate_conflict, active_domain_ownership_conflict,
}
use mathlib.Core.List.{Memᴰ}
use text.Mathlib.TextEquality.{eq_iff}

-- The registration is enabled, and so is one of its domains with this canonical name.
unfoldable pub serves : String → EntrypointRegistration → Bool
serves k r =
    is_enabled r.activation_state
    && any (λ d. is_enabled d.activation_state && d.name.canonical == k) r.registered_domains

abbrev names : String → String × String → Bool
names k p = p.0 == k

abbrev is_some {ℓ} : {A : Type ℓ} → Option A → Bool
is_some none = false
is_some (some a) = true

any-append {ℓ} :
    {A : Type ℓ} (p : A → Bool) (xs ys : List A) → any p (xs ++ ys) ≡ (any p xs || any p ys)
any-append p [] ys = refl
any-append p (x ∷ xs) ys = ground (arith, any-append p xs ys)

any-filter :
    (k : String) (r : EntrypointRegistration) (ds : List RegisteredDomain)
    → any (names k) (map (owner_entry r) (filter (λ d. is_enabled d.activation_state) ds))
      ≡ any (λ d. is_enabled d.activation_state && d.name.canonical == k) ds
any-filter k r [] = refl
any-filter k r (d ∷ ds) = ground (arith, any-filter k r ds)

pub any-filter_domains :
    (k : String) (ds : List RegisteredDomain)
    → any (λ d. d.name.canonical == k) (filter (λ d. is_enabled d.activation_state) ds)
      ≡ any (λ d. is_enabled d.activation_state && d.name.canonical == k) ds
any-filter_domains k [] = refl
any-filter_domains k (d ∷ ds) = ground (arith, any-filter_domains k ds)

-- Every other registration that serves a domain is among the owners.
owner_pairs_complete :
    (k id j : String) (m : Registrations) (s : EntrypointRegistration)
    → lookup j m ≡ some s
    → s.registration_id ≢ id
    → serves k s ≡ true
    → any (names k) (owner_pairs id (values m)) ≡ true
unfolding lookup owner_pairs serves
owner_pairs_complete k id j [] s e n h = cc
owner_pairs_complete k id j ((i, r) ∷ m) s e n h = ground (
  arith,
  eq_iff i j,
  eq_iff r.registration_id id,
  any-filter k r r.registered_domains,
  any-append (names k) (map (owner_entry r) (enabled_domains r)) (owner_pairs id (values m)),
  owner_pairs_complete k id j m s,
)

lookup-collect-is-some :
    (k : String) (m : Dict String) (ps : List (String × String))
    → is_some (lookup k (collect m ps)) ≡ (is_some (lookup k m) || any (names k) ps)
unfolding collect
lookup-collect-is-some k m [] = ground arith
lookup-collect-is-some k m ((j, v) ∷ ps) =
    ground (arith, lookup-insert j k v m, lookup-collect-is-some k (insert j v m) ps)

first_owned-none :
    (k : String) (owners : Dict String) (r : EntrypointRegistration) (ds : List RegisteredDomain)
    → first_owned owners r ds ≡ none
    → any (λ d. d.name.canonical == k) ds ≡ true
    → is_some (lookup k owners) ≡ false
unfolding first_owned
first_owned-none k owners r [] e h = cc
first_owned-none k owners r (d ∷ ds) e h = ground (
  arith,
  eq_iff d.name.canonical k,
  ap (λ (x : String). lookup x owners),
  first_owned-none k owners r ds,
)

-- If no conflict is found, a domain that the candidate serves is served by no other registration.
pub conflict_none :
    (k id j : String) (m : Registrations) (r s : EntrypointRegistration)
    → active_domain_ownership_conflict m id ≡ none
    → lookup id m ≡ some r
    → lookup j m ≡ some s
    → s.registration_id ≢ id
    → serves k r ≡ true
    → serves k s ≡ false
unfolding active_domain_ownership_conflict candidate_conflict serves
conflict_none k id j m r s e er es n h = ground (
  arith,
  owner_pairs_complete k id j m s es n,
  lookup-collect-is-some k [] (owner_pairs id (values m)),
  any-filter_domains k r.registered_domains,
  first_owned-none k (collect [] (owner_pairs id (values m))) r (enabled_domains r),
)
