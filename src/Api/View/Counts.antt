-- ===== src/Api/View/Counts.antt =====
-- The counts agree with the views.
use cadder.Base.{
  ℕ, suc, ◌+◌, ◌≡◌, refl, sym, ap, ◌∙◌, none, List, [], ◌∷◌, ◌++◌, map, filter, length, flat_map,
  length-append, arith,
}
use cadder.Api.View.{
  CountsView, EntrypointView, DomainView, entrypoint_view, entrypoints_view, domains_view,
  domains_of, domain_view, passes, enabled_domains, sum, counts,
}
use cadder.Protocol.Snapshot.{GuiStateSnapshot}
use cadder.Protocol.State.{RegisteredDomain, EntrypointRegistration}

-- The counts of a snapshot, from the views of its entrypoints and domains.
abbrev pub counts_of_views : List EntrypointView → List DomainView → CountsView
counts_of_views entrypoints domains = record {
  entrypoints = length entrypoints;
  domains = length domains;
  active_domains = sum (map (λ (e : EntrypointView). e.active_domain_count) entrypoints);
}

length-map {ℓ κ} :
    {A : Type ℓ} {B : Type κ} (f : A → B) (xs : List A) → length (map f xs) ≡ length xs
length-map f [] = refl
length-map f (x ∷ xs) = ap suc (length-map f xs)

length-enabled_domains :
    (xs ys : List RegisteredDomain)
    → length (enabled_domains (xs ++ ys))
      ≡ length (enabled_domains xs) + length (enabled_domains ys)
unfolding enabled_domains
length-enabled_domains [] ys = omega arith
length-enabled_domains (x ∷ xs) ys = ground (arith, length-enabled_domains xs ys)

abbrev domain_total : List EntrypointRegistration → ℕ
domain_total rs = sum (map (λ (r : EntrypointRegistration). length r.registered_domains) rs)

listed :
    (rs : List EntrypointRegistration)
    → length (flat_map domains_of (filter (passes none) rs)) ≡ domain_total rs
listed [] = refl
listed (r ∷ rs) =
    let here = length-map (domain_view r) r.registered_domains in
    let joined = length-append (domains_of r) (flat_map domains_of (filter (passes none) rs)) in
    omega (arith, here, joined, listed rs)

shown :
    (rs : List EntrypointRegistration)
    → sum (map (λ (e : EntrypointView). e.domain_count) (map entrypoint_view rs)) ≡ domain_total rs
unfolding entrypoint_view
shown [] = refl
shown (r ∷ rs) = omega (arith, shown rs)

active :
    (rs : List EntrypointRegistration)
    → length (enabled_domains (flat_map (λ (r : EntrypointRegistration). r.registered_domains) rs))
      ≡ sum (map (λ (e : EntrypointView). e.active_domain_count) (map entrypoint_view rs))
unfolding entrypoint_view enabled_domains
active [] = refl
active (r ∷ rs) =
    let joined =
      length-enabled_domains r.registered_domains
        (flat_map (λ (q : EntrypointRegistration). q.registered_domains) rs) in
    omega (arith, joined, active rs)

-- The counts are those of the entrypoint view and of the unfiltered domain view, and the numbers of
-- domains that the entrypoint view shows add up to that of the domain view.
pub counts_lem :
    (s : GuiStateSnapshot)
    → (counts s ≡ counts_of_views (entrypoints_view s).entrypoints (domains_view s none).domains)
      × (sum (map (λ (e : EntrypointView). e.domain_count) (entrypoints_view s).entrypoints)
          ≡ length (domains_view s none).domains)
unfolding counts entrypoints_view entrypoint_view domains_view
counts_lem s =
    let entrypoints = length-map entrypoint_view s.registrations in
    let domains = listed s.registrations in
    let enabled = active s.registrations in
    (ground (arith, entrypoints, domains, enabled), shown s.registrations ∙ sym domains)
