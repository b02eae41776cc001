-- ===== src/Registrations/Exclusive/Edits.antt =====
-- The edits of the registration map, one lemma for each: insertion, removal, activation of an
-- entrypoint or of a domain.
use cadder.Base.{
  String, ◌≡◌, refl, ◌⊎◌, inl, inr, true, false, ◌&&◌, Option, none, some, List, [], ◌∷◌, ◌==◌,
  string_eq, arith, any, Bool-cases, some_inj, if◌then◌else◌, sym, subst, ◌∙◌, All,
}
use cadder.Base.Dict.{
  lookup, insert, remove, adjust, lookup-insert, lookup-remove, lookup-adjust, All-insert,
  All-remove, All-adjust, Distinct-insert, Distinct-remove, Distinct-adjust,
}
use cadder.Protocol.State.{is_enabled, from_enabled, RegisteredDomain, EntrypointRegistration}
use cadder.Registrations.{
  Registrations, active_domain_ownership_conflict, set_domain, with_domain, with_activation,
}
use cadder.Registrations.Conflicts.{serves}
use cadder.Registrations.Exclusive.{
  KeyMatches, IsExclusive, SingleOwner-of_less, SingleOwner-of_free,
}
use mathlib.Core.Option
use text.Mathlib.TextEquality.{eq_iff}

-- A registration without a conflict may enter under its own id.
pub insert-IsExclusive :
    (m : Registrations) (r : EntrypointRegistration)
    → IsExclusive m
    → active_domain_ownership_conflict (insert r.registration_id r m) r.registration_id ≡ none
    → IsExclusive (insert r.registration_id r m)
insert-IsExclusive m r x free =
    let keyed = All-insert KeyMatches r.registration_id r m refl x.keyed in
    record {
      keyed = keyed;
      distinct = Distinct-insert r.registration_id r m x.distinct;
      single =
          SingleOwner-of_free m (insert r.registration_id r m) r.registration_id
            (λ j ne.
              rw (lookup-insert r.registration_id j r m)
                (ground (arith, eq_iff r.registration_id j)))
            keyed free x.single;
    }

pub remove-IsExclusive :
    (id : String) (m : Registrations) → IsExclusive m → IsExclusive (remove id m)
remove-IsExclusive id m x = record {
  keyed = All-remove KeyMatches id m x.keyed;
  distinct = Distinct-remove id m x.distinct;
  single =
      SingleOwner-of_less m (remove id m)
        (λ j s e. (s, ground (arith, e, lookup-remove id j m), λ k h. h)) x.single;
}

module _ (id : String) (f : EntrypointRegistration → EntrypointRegistration)
    (same_id : (r : EntrypointRegistration) → (f r).registration_id ≡ r.registration_id)
    (m : Registrations) (x : IsExclusive m) where
  adjust-keyed : All KeyMatches (adjust id f m)
  adjust-keyed = All-adjust KeyMatches id f m (λ r h. same_id r ∙ h) x.keyed

  -- An edit of one registration after which there is no conflict.
  pub adjust-IsExclusive_of_free :
      active_domain_ownership_conflict (adjust id f m) id ≡ none → IsExclusive (adjust id f m)
  adjust-IsExclusive_of_free free = record {
    keyed = adjust-keyed;
    distinct = Distinct-adjust id f m x.distinct;
    single =
        SingleOwner-of_free m (adjust id f m) id
          (λ j ne. rw (lookup-adjust id j f m) (ground (arith, eq_iff id j))) adjust-keyed free
          x.single;
  }

  -- An edit after which the registration serves no new domain.
  pub adjust-IsExclusive_of_less :
      ((r : EntrypointRegistration) (k : String) → serves k (f r) ≡ true → serves k r ≡ true)
      → IsExclusive (adjust id f m)
  adjust-IsExclusive_of_less less = record {
    keyed = adjust-keyed;
    distinct = Distinct-adjust id f m x.distinct;
    single = SingleOwner-of_less m (adjust id f m) earlier x.single;
  }
    where
      from_old :
          (j : String) (s : EntrypointRegistration) (o : Option EntrypointRegistration)
          → (if id == j then Option.map f o else o) ≡ some s
          → (r : EntrypointRegistration) × (o ≡ some r)
            × ((k : String) → serves k s ≡ true → serves k r ≡ true)
      from_old j s none e = absurd (ground (arith, e))
      from_old j s (some r) e = (r, refl, λ k h. by_key (Bool-cases (id == j)) k h)
        where
          by_key :
              ((id == j) ≡ true) ⊎ ((id == j) ≡ false)
              → (k : String) → serves k s ≡ true
              → serves k r ≡ true
          by_key (inl hit) k h =
              less r k (subst (λ t. serves k t ≡ true) (sym (some_inj (rw hit at e))) h)
          by_key (inr miss) k h = subst (λ t. serves k t ≡ true) (sym (some_inj (rw miss at e))) h

      earlier :
          (j : String) (s : EntrypointRegistration)
          → lookup j (adjust id f m) ≡ some s
          → (r : EntrypointRegistration) × (lookup j m ≡ some r)
            × ((k : String) → serves k s ≡ true → serves k r ≡ true)
      earlier j s e = from_old j s (lookup j m) (sym (lookup-adjust id j f m) ∙ e)

-- A disabled entrypoint serves nothing, and a disabled domain is not served anew.
pub serves-with_activation-false :
    (r : EntrypointRegistration) (k : String)
    → serves k (with_activation false r) ≡ true
    → serves k r ≡ true
unfolding serves from_enabled is_enabled
serves-with_activation-false r k h = absurd (cc h)

any-set_domain-false :
    (key k : String) (ds : List RegisteredDomain)
    → any (λ d. is_enabled d.activation_state && d.name.canonical == k) (set_domain key false ds)
      ≡ true
    → any (λ d. is_enabled d.activation_state && d.name.canonical == k) ds ≡ true
unfolding set_domain from_enabled is_enabled
any-set_domain-false key k [] h = h
any-set_domain-false key k (d ∷ ds) h = ground (arith, any-set_domain-false key k ds)

pub serves-with_domain-false :
    (key : String) (r : EntrypointRegistration) (k : String)
    → serves k (with_domain key false r) ≡ true
    → serves k r ≡ true
unfolding serves
serves-with_domain-false key r k h =
    ground (arith, h, any-set_domain-false key k r.registered_domains)
