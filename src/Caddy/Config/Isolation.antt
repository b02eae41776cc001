-- ===== src/Caddy/Config/Isolation.antt =====
-- The effective configuration routes no host that is not enabled.
use cadder.Base.{
  String, ◌≡◌, refl, Bool, true, ◌&&◌, Option, none, some, List, [], ◌∷◌, map, filter, ◌==◌,
  string_eq, arith, All, Any, All-append, any, Bool-cases, Option-cases, inl, inr, sym, ◌∙◌, subst,
  is_empty, some_inj, All-weaken,
}
use cadder.Base.Dict.{Dict, lookup}
use cadder.Caddy.Domains.{DomainSet, set_member, set_list, canonicalize_domain, set_member-set_of}
use cadder.Caddy.Json.{Value, from_list}
use cadder.Caddy.Config.{
  active_domains, filter_routes, placeholder_route, registration_routes, guard_registration_routes,
  guarded_route, compose_routes,
}
use cadder.Caddy.Config.Routes.{texts, member_hosts, hosts_of, items_hosts}
use cadder.Protocol.State.{is_enabled, RegisteredDomain, EntrypointRegistration}
use mathlib.Core.List.{append-nil}
use text.Mathlib.TextEquality.{eq_iff}
use cadder.Caddy.Config.Filtering.{IsHost, filter_routes-IsHost}

-- The registration has an enabled domain with this canonical name.
abbrev pub enables : String → EntrypointRegistration → Bool
enables k r = any (λ d. is_enabled d.activation_state && d.name.canonical == k) r.registered_domains

any-names :
    (k : String) (ds : List RegisteredDomain)
    → any
        (λ j. j == k)
        (map
          (λ (d : RegisteredDomain). d.name.canonical)
          (filter (λ d. is_enabled d.activation_state) ds))
      ≡ any (λ d. is_enabled d.activation_state && d.name.canonical == k) ds
any-names k [] = refl
any-names k (d ∷ ds) = ground (arith, any-names k ds)

pub set_member-active_domains :
    (k : String) (r : EntrypointRegistration) → set_member k (active_domains r) ≡ enables k r
unfolding active_domains
set_member-active_domains k r =
    set_member-set_of k [] (
      map (λ (d : RegisteredDomain). d.name.canonical)
        (filter (λ d. is_enabled d.activation_state) r.registered_domains))
    ∙ unfold lookup in any-names k r.registered_domains

-- The names that a registration carries are canonical, as `DomainName::parse` makes them.
abbrev pub HasCanonicalNames : (String → Option String) → EntrypointRegistration → Type 0
HasCanonicalNames to_ascii r =
    (k : String) → enables k r ≡ true → canonicalize_domain to_ascii k ≡ k

module _ (to_ascii : String → Option String) (P : String → Type 0) where
  host_texts-texts :
      (m : DomainSet)
      → All (λ k. P (canonicalize_domain to_ascii k)) (set_list m)
      → All P (member_hosts to_ascii true (texts (set_list m)))
  host_texts-texts [] h = tt
  host_texts-texts ((k, u) ∷ m) h = (h.0, host_texts-texts m h.1)

  items_hosts-texts : (m : DomainSet) → All P (hosts_of to_ascii (texts (set_list m)))
  unfolding hosts_of
  items_hosts-texts [] = tt
  items_hosts-texts ((k, u) ∷ m) = items_hosts-texts m

  items_hosts-placeholder :
      (m : DomainSet)
      → All (λ k. P (canonicalize_domain to_ascii k)) (set_list m)
      → All P (items_hosts to_ascii (from_list (map placeholder_route (set_list m))))
  unfolding hosts_of
  items_hosts-placeholder [] h = tt
  items_hosts-placeholder ((k, u) ∷ m) h = (h.0, items_hosts-placeholder m h.1)

  guard_hosts :
      (vs : List Value) (m : DomainSet) (v : Value)
      → guard_registration_routes vs m ≡ some v
      → All P (items_hosts to_ascii (from_list vs))
      → All (λ k. P (canonicalize_domain to_ascii k)) (set_list m)
      → All P (hosts_of to_ascii v)
  unfolding guard_registration_routes hosts_of
  guard_hosts [] m v e h g = cc
  guard_hosts (w ∷ ws) m v e h g = rw (← some_inj e) (
      simp append-nil (
        All-append P (items_hosts to_ascii (from_list (w ∷ ws))) _ h (
          All-append P (member_hosts to_ascii true (texts (set_list m))) _ (host_texts-texts m g)
            (items_hosts-texts m))))

All-set_list :
    (P : String → Type 0) (m : DomainSet)
    → ((k : String) → set_member k m ≡ true → P k)
    → All P (set_list m)
unfolding lookup
All-set_list P [] h = tt
All-set_list P ((k, u) ∷ m) h =
    (h k (ground (arith, eq_iff k k)), All-set_list P m (λ j e. h j (ground (arith, e))))

module _ (to_ascii : String → Option String) (routes : Dict (List Value)) where
  registration_routes-hosts :
      (P : String → Type 0) (r : EntrypointRegistration)
      → HasCanonicalNames to_ascii r
      → ((k : String) → enables k r ≡ true → P k)
      → All P (
          items_hosts to_ascii
            (from_list (registration_routes to_ascii routes (active_domains r) r)))
        × All (λ k. P (canonicalize_domain to_ascii k)) (set_list (active_domains r))
  unfolding registration_routes
  registration_routes-hosts P r canonical give =
      (by_source (lookup r.registration_id routes), names)
    where
      member : (k : String) → set_member k (active_domains r) ≡ true → enables k r ≡ true
      member k e = sym (set_member-active_domains k r) ∙ e

      names : All (λ k. P (canonicalize_domain to_ascii k)) (set_list (active_domains r))
      names =
          All-set_list (λ k. P (canonicalize_domain to_ascii k)) (active_domains r)
            (λ k e. subst P (sym (canonical k (member k e))) (give k (member k e)))

      by_source :
          (o : Option (List Value))
          → All P (
              items_hosts to_ascii (
                from_list (elim o [
                  | some source ↦ filter_routes to_ascii (active_domains r) source
                  | none ↦ map placeholder_route (set_list (active_domains r))
                ])))
      by_source none = items_hosts-placeholder to_ascii P (active_domains r) names
      by_source (some source) =
          All-weaken (IsHost to_ascii (active_domains r)) P
            (items_hosts to_ascii (from_list (filter_routes to_ascii (active_domains r) source)))
            (λ k e. give k (member k e)) (filter_routes-IsHost to_ascii (active_domains r) source)

  guarded_route-hosts :
      (P : String → Type 0) (r : EntrypointRegistration) (v : Value)
      → guarded_route to_ascii routes r ≡ some v
      → HasCanonicalNames to_ascii r
      → ((k : String) → enables k r ≡ true → P k)
      → All P (hosts_of to_ascii v)
  unfolding guarded_route
  guarded_route-hosts P r v e canonical give =
      let (inner, names) = registration_routes-hosts P r canonical give in
      elim (Bool-cases (is_empty (active_domains r))) [
        | inl idle ↦ absurd (ground (arith, idle, e))
        | inr busy ↦
            guard_hosts to_ascii P (registration_routes to_ascii routes (active_domains r) r)
              (active_domains r) v (rw (busy, guarded_route) at e) inner names
      ]

  -- Every host that a route of the effective configuration names, at any depth and in canonical
  -- form, is an enabled domain of one of the registrations that it is composed from.
  pub compose_routes_isolated :
      (rs : List EntrypointRegistration)
      → All (HasCanonicalNames to_ascii) rs
      → All
          (λ k. Any (λ r. enables k r ≡ true) rs)
          (items_hosts to_ascii (from_list (compose_routes to_ascii routes rs)))
  unfolding compose_routes hosts_of
  compose_routes_isolated [] h = tt
  compose_routes_isolated (r ∷ rs) (canonical, h) =
      elim (Option-cases (guarded_route to_ascii routes r)) [
        | inl absent ↦ rw (absent, compose_routes) (later (compose_routes_isolated rs h))
        | inr (v, built) ↦
            rw (built, compose_routes)
              (All-append (λ k. Any (λ s. enables k s ≡ true) (r ∷ rs)) (hosts_of to_ascii v) _
                (guarded_route-hosts (λ k. Any (λ s. enables k s ≡ true) (r ∷ rs)) r v built
                  canonical (λ k e. inl e))
                (later (compose_routes_isolated rs h)))
      ]
    where
      later :
          All
            (λ k. Any (λ s. enables k s ≡ true) rs)
            (items_hosts to_ascii (from_list (compose_routes to_ascii routes rs)))
          → All
              (λ k. Any (λ s. enables k s ≡ true) (r ∷ rs))
              (items_hosts to_ascii (from_list (compose_routes to_ascii routes rs)))
      later = All-weaken (λ k. Any (λ s. enables k s ≡ true) rs) _ _ (λ k a. inr a)
