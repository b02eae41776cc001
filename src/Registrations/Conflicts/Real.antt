-- ===== src/Registrations/Conflicts/Real.antt =====
-- A conflict that is reported is real.
use cadder.Base.{
  String, ◌≡◌, refl, ◌≢◌, ◌⊎◌, inl, inr, true, not, ◌&&◌, some, List, [], ◌∷◌, ◌++◌, map, ◌==◌,
  string_eq, arith, any, filter, ==→eq, eq→==, Bool-cases, Option-cases, ==_refl, sym, ap,
}
use cadder.Base.Dict.{Dict, lookup, insert, values, lookup-insert}
use cadder.Protocol.State.{is_enabled, RegisteredDomain, EntrypointRegistration}
use cadder.Registrations.{
  Registrations, DomainOwnershipConflict, enabled_domains, owner_entry, owner_pairs, collect,
  first_owned, candidate_conflict, active_domain_ownership_conflict,
}
use mathlib.Core.List.{Memᴰ}
use text.Mathlib.TextEquality.{eq_iff}
use cadder.Registrations.Conflicts.{serves, any-filter_domains}

-- What a reported conflict says: the candidate and another registration both serve the domain.
pub record IsConflict (m : Registrations) (id : String) (c : DomainOwnershipConflict) : Type 0 where
  pub candidate : EntrypointRegistration
  pub found : lookup id m ≡ some candidate
  pub named : c.conflicting_registration_id ≡ candidate.registration_id
  pub wanted : serves c.domain candidate ≡ true
  pub owner : EntrypointRegistration
  pub listed : Memᴰ owner (values m)
  pub owner_named : c.owner_registration_id ≡ owner.registration_id
  pub other : owner.registration_id ≢ id
  pub owned : serves c.domain owner ≡ true

record IsFirst (owners : Dict String) (r : EntrypointRegistration) (ds : List RegisteredDomain)
    (c : DomainOwnershipConflict) : Type 0 where
  named : c.conflicting_registration_id ≡ r.registration_id
  wanted : any (λ d. d.name.canonical == c.domain) ds ≡ true
  owned : lookup c.domain owners ≡ some c.owner_registration_id

first_owned-some :
    (owners : Dict String) (r : EntrypointRegistration) (ds : List RegisteredDomain)
    (c : DomainOwnershipConflict)
    → first_owned owners r ds ≡ some c
    → IsFirst owners r ds c
unfolding first_owned
first_owned-some owners r [] c e = cc
first_owned-some owners r (d ∷ ds) c e = elim (Option-cases (lookup d.name.canonical owners)) [
  | inl missing ↦
      let later = first_owned-some owners r ds c (rw (missing, first_owned) at e) in
      record { named = later.named; wanted = ground (arith, later.wanted); owned = later.owned }
  | inr (o, hit) ↦ record {
    named = ground arith;
    wanted = ground (arith, ==_refl d.name.canonical);
    owned = ground arith;
  }
]

pair_eq : {a b c d : String} → a ≡ b → c ≡ d → ◌≡◌ {A = String × String} (b, d) (a, c)
pair_eq p q = λ i. (sym p i, sym q i)

collect_sound :
    (k v : String) (m : Dict String) (ps : List (String × String))
    → lookup k (collect m ps) ≡ some v
    → (lookup k m ≡ some v) ⊎ Memᴰ (k, v) ps
unfolding collect
collect_sound k v m [] e = inl e
collect_sound k v m ((j, w) ∷ ps) e = elim (collect_sound k v (insert j w m) ps e) [
  | inr later ↦ inr (Memᴰ.tail later)
  | inl hit ↦ elim (Bool-cases (j == k)) [
    | inl same ↦ inr (Memᴰ.head (pair_eq (==→eq j k same) (ground (arith, lookup-insert j k w m))))
    | inr other ↦ inl (ground (arith, lookup-insert j k w m))
  ]
]

mem_append {ℓ} : {A : Type ℓ} {x : A} (xs ys : List A) → Memᴰ x (xs ++ ys) → Memᴰ x xs ⊎ Memᴰ x ys
mem_append [] ys h = inr h
mem_append (x ∷ xs) ys (Memᴰ.head e) = inl (Memᴰ.head e)
mem_append (x ∷ xs) ys (Memᴰ.tail h) = elim (mem_append xs ys h) [
  | inl a ↦ inl (Memᴰ.tail a)
  | inr b ↦ inr b
]

mem_cons {ℓ} : {A : Type ℓ} {a x : A} {xs : List A} → Memᴰ a (x ∷ xs) → (a ≡ x) ⊎ Memᴰ a xs
mem_cons (Memᴰ.head e) = inl e
mem_cons (Memᴰ.tail h) = inr h

mem_entries :
    (p : String × String) (r : EntrypointRegistration) (ds : List RegisteredDomain)
    → Memᴰ p (map (owner_entry r) (filter (λ d. is_enabled d.activation_state) ds))
    → (p.1 ≡ r.registration_id)
      × (any (λ d. is_enabled d.activation_state && d.name.canonical == p.0) ds ≡ true)
mem_entries p r [] h = elim h [ ]
mem_entries p r (d ∷ ds) h = elim (Bool-cases (is_enabled d.activation_state)) [
  | inr off ↦ rw off (mem_entries p r ds (rw off at h))
  | inl on ↦ elim (mem_cons (rw on at h)) [
    | inl e ↦ (
      ap (λ (q : String × String). q.1) e,
      ground (
        arith,
        on,
        ap (λ (q : String × String). q.0) e,
        eq→== d.name.canonical p.0 (sym (ap (λ (q : String × String). q.0) e)),
      ),
    )
    | inr later ↦ let (named, served) = mem_entries p r ds later in (named, ground (arith, served))
  ]
]

-- An entry of the list of owners comes from another registration that serves the domain.
owner_pairs_sound :
    (k v id : String) (rs : List EntrypointRegistration)
    → Memᴰ (k, v) (owner_pairs id rs)
    → (r : EntrypointRegistration) × Memᴰ r rs
      × (v ≡ r.registration_id)
      × (r.registration_id ≢ id)
      × (serves k r ≡ true)
unfolding owner_pairs serves
owner_pairs_sound k v id [] h = elim h [ ]
owner_pairs_sound k v id (r ∷ rs) h =
    elim (Bool-cases (not (r.registration_id == id) && is_enabled r.activation_state)) [
      | inr out ↦ skip (owner_pairs_sound k v id rs (rw out at h))
      | inl counted ↦
          elim (mem_append (map (owner_entry r) (enabled_domains r)) (owner_pairs id rs)
            (rw counted at h)) [
              | inr later ↦ skip (owner_pairs_sound k v id rs later)
              | inl here ↦
                  let (named, served) = mem_entries (k, v) r r.registered_domains here in
                  (
                    r,
                    Memᴰ.head refl,
                    named,
                    ground (arith, eq_iff r.registration_id id),
                    ground (arith, served),
                  )
            ]
    ]
  where
    skip :
        ((s : EntrypointRegistration) × Memᴰ s rs
          × (v ≡ s.registration_id)
          × (s.registration_id ≢ id)
          × (serves k s ≡ true))
        → (s : EntrypointRegistration) × Memᴰ s (r ∷ rs)
          × (v ≡ s.registration_id)
          × (s.registration_id ≢ id)
          × (serves k s ≡ true)
    skip (s, listed, named, other, served) = (s, Memᴰ.tail listed, named, other, served)

-- A reported conflict is real: the candidate that the map holds under `id` serves the domain, and
-- so does a registration of the map with another id, which the conflict names.
pub IsConflict-some :
    (m : Registrations) (id : String) (c : DomainOwnershipConflict)
    → active_domain_ownership_conflict m id ≡ some c
    → IsConflict m id c
unfolding active_domain_ownership_conflict candidate_conflict
IsConflict-some m id c e = elim (Option-cases (lookup id m)) [
  | inl missing ↦ absurd (ground (arith, missing, e))
  | inr (r, found) ↦ from_candidate r found (rw (found, active_domain_ownership_conflict) at e)
]
  where
    from_owner :
        (r : EntrypointRegistration)
        → lookup id m ≡ some r
        → is_enabled r.activation_state ≡ true
        → IsFirst (collect [] (owner_pairs id (values m))) r (enabled_domains r) c
        → (lookup {V = String} c.domain [] ≡ some c.owner_registration_id)
          ⊎ Memᴰ (c.domain, c.owner_registration_id) (owner_pairs id (values m))
        → IsConflict m id c
    from_owner r found on first (inl none_yet) = absurd (unfold lookup in cc none_yet)
    from_owner r found on first (inr mem) =
        let (s, listed, named, other, served) =
          owner_pairs_sound c.domain c.owner_registration_id id (values m) mem in
        record {
          candidate = r;
          found = found;
          named = first.named;
          wanted =
              unfold serves in
              ground (arith, on, any-filter_domains c.domain r.registered_domains, first.wanted);
          owner = s;
          listed = listed;
          owner_named = named;
          other = other;
          owned = served;
        }

    from_candidate :
        (r : EntrypointRegistration)
        → lookup id m ≡ some r
        → candidate_conflict m id r ≡ some c
        → IsConflict m id c
    from_candidate r found e =
        let on : is_enabled r.activation_state ≡ true = ground (arith, e) in
        let first =
          first_owned-some (collect [] (owner_pairs id (values m))) r (enabled_domains r) c
            (ground (arith, e, on)) in
        from_owner r found on first
          (collect_sound c.domain c.owner_registration_id [] _ first.owned)
