-- ===== src/Caddy/Conflicts/Laws.antt =====
-- When `detect_conflicts` reports something.
use cadder.Base.{
  ℕ, ◌+◌, ◌≤◌, String, ◌≡◌, refl, ◌↔◌, ◌&&◌, none, some, List, [], ◌∷◌, ◌++◌, if◌then◌else◌,
  unwrap_or, length, arith, ◌==◌, string_eq, All, length-append, ap, inl, inr, ◌⊎◌, Option-cases,
}
use cadder.Base.Dict.{lookup, lookup-insert, Distinct, Distinct-insert, All-lookup, All-of-lookup}
use cadder.Caddy.Conflicts.{
  Owners, push_owner, add_domains, owners_from, conflict_diagnostics, detect_conflicts,
}
use cadder.Protocol.State.{is_enabled, RegisteredDomain, EntrypointRegistration}
use text.Mathlib.TextEquality.{eq_iff}

-- How often a registration claims a domain, and how often all of a list do.
unfoldable pub domain_claims : String → List RegisteredDomain → ℕ
domain_claims k [] = 0
domain_claims k (d ∷ ds) =
    (if is_enabled d.activation_state && d.name.canonical == k then 1 else 0) + domain_claims k ds

unfoldable pub claims_of : String → EntrypointRegistration → ℕ
unfolding domain_claims
claims_of k r = if is_enabled r.activation_state then domain_claims k r.registered_domains else 0

unfoldable pub claims : String → List EntrypointRegistration → ℕ
unfolding claims_of
claims k [] = 0
claims k (r ∷ rs) = claims_of k r + claims k rs

owned : String → Owners → ℕ
owned k m = length (unwrap_or (lookup k m) [])

owned-push_owner :
    (k j : String) (r : EntrypointRegistration) (m : Owners)
    → owned k (push_owner j r m) ≡ (if j == k then 1 else 0) + owned k m
unfolding owned push_owner
owned-push_owner k j r m = ground (
  arith,
  lookup-insert j k (unwrap_or (lookup j m) [] ++ r ∷ []) m,
  eq_iff j k,
  ap (λ (x : String). lookup x m),
  length-append (unwrap_or (lookup j m) []) (r ∷ []),
)

owned-add_domains :
    (k : String) (r : EntrypointRegistration) (ds : List RegisteredDomain) (m : Owners)
    → owned k (add_domains r ds m) ≡ domain_claims k ds + owned k m
unfolding add_domains domain_claims
owned-add_domains k r [] m = omega arith
owned-add_domains k r (d ∷ ds) m = ground (
  arith,
  owned-add_domains k r ds
      (if is_enabled d.activation_state then push_owner d.name.canonical r m else m),
  owned-push_owner k d.name.canonical r m,
)

owned-owners_from :
    (k : String) (rs : List EntrypointRegistration) (m : Owners)
    → owned k (owners_from rs m) ≡ claims k rs + owned k m
unfolding owners_from claims claims_of
owned-owners_from k [] m = omega arith
owned-owners_from k (r ∷ rs) m = ground (
  arith,
  owned-owners_from k rs
      (if is_enabled r.activation_state then add_domains r r.registered_domains m else m),
  owned-add_domains k r r.registered_domains m,
)

add_domains-Distinct :
    (r : EntrypointRegistration) (ds : List RegisteredDomain) (m : Owners)
    → Distinct m
    → Distinct (add_domains r ds m)
unfolding add_domains push_owner
add_domains-Distinct r [] m d = d
add_domains-Distinct r (x ∷ ds) m d = add_domains-Distinct r ds _ (
    ground (
      arith,
      d,
      Distinct-insert x.name.canonical (unwrap_or (lookup x.name.canonical m) [] ++ r ∷ []) m d,
    ))

owners_from-Distinct :
    (rs : List EntrypointRegistration) (m : Owners) → Distinct m → Distinct (owners_from rs m)
unfolding owners_from
owners_from-Distinct [] m d = d
owners_from-Distinct (r ∷ rs) m d =
    owners_from-Distinct rs _ (ground (arith, d, add_domains-Distinct r r.registered_domains m d))

conflict_diagnostics_nil :
    (m : Owners)
    → (conflict_diagnostics m ≡ [])
      ↔ All (λ (e : String × List EntrypointRegistration). length e.1 ≤ 1) m
unfolding conflict_diagnostics
conflict_diagnostics_nil [] = ((λ _. tt), (λ _. refl))
conflict_diagnostics_nil ((k, rs) ∷ m) = (
  (λ e. ground (arith, e, (conflict_diagnostics_nil m).0)),
  (λ h. ground (arith, h.0, (conflict_diagnostics_nil m).1 h.1)),
)

abbrev IsSmall : String × List EntrypointRegistration → Type 0
IsSmall e = length e.1 ≤ 1

owned_le : (k : String) (m : Owners) → All IsSmall m → owned k m ≤ 1
unfolding owned
owned_le k m h = by_lookup (Option-cases (lookup k m))
  where
    by_lookup :
        (lookup k m ≡ none) ⊎ ((v : List EntrypointRegistration) × (lookup k m ≡ some v))
        → length (unwrap_or (lookup k m) []) ≤ 1
    by_lookup (inl e) = rw e (omega arith)
    by_lookup (inr (v, e)) = rw e (All-lookup IsSmall k v m h e)

owned_some :
    (k : String) (v : List EntrypointRegistration) (m : Owners)
    → lookup k m ≡ some v
    → owned k m ≡ length v
unfolding owned
owned_some k v m e = rw e refl

owned_empty : (k : String) → owned k [] ≡ 0
unfolding owned lookup
owned_empty k = refl

-- No conflict is reported exactly when every domain is claimed at most once, where an enabled
-- registration claims the canonical name of each of its enabled domains.
pub detect_conflicts_iff :
    (rs : List EntrypointRegistration)
    → (detect_conflicts rs ≡ []) ↔ ((k : String) → claims k rs ≤ 1)
unfolding detect_conflicts
detect_conflicts_iff rs = (
  λ e k. omega (
    arith,
    owned-owners_from k rs [],
    owned_empty k,
    owned_le k (owners_from rs []) ((conflict_diagnostics_nil (owners_from rs [])).0 e),
  ),
  λ h. (conflict_diagnostics_nil (owners_from rs [])).1 (
      All-of-lookup IsSmall (owners_from rs []) (owners_from-Distinct rs [] tt) (λ k v found.
        omega (
          arith,
          h k,
          owned-owners_from k rs [],
          owned_empty k,
          owned_some k v (owners_from rs []) found,
        ))),
)
