-- ===== src/Daemon/Mutations/Editing.antt =====
-- What the steps that the mutations share do: an edit that is looked up, checked and carried out.
use Prim.Native.String as Str
use cadder.Base.{
  String, ◌≡◌, refl, Bool, true, false, Option, none, some, Result, ok, string_eq, if◌then◌else◌,
}
use cadder.Base.Dict.{lookup, adjust}
use cadder.Daemon.{Task, Env}
use cadder.Daemon.Candidates.{mutate, checked}
use cadder.Daemon.Responses.{
  refused, accepted, registration_mutation_runtime_rejected, registration_mutation_storage_rejected,
}
use cadder.Daemon.Mutations.Outcome.{IsEndOf, refused-IsEndOf, conclude-IsEndOf}
use cadder.Daemon.Transaction.{Schedule}
use cadder.Fence.{CommitRejection}
use cadder.Protocol.Messages.{BasicResponse}
use cadder.Protocol.State.{EntrypointRegistration}
use cadder.Registrations.{
  Registrations, DomainOwnershipConflict, active_domain_ownership_conflict, conflict_text,
}
use cadder.Registrations.Exclusive.{IsExclusive}
use cadder.Registrations.Exclusive.Edits.{adjust-IsExclusive_of_free}
use cadder.Runtime.{Runtime, Serving}

abbrev pub is_accepted : BasicResponse → Bool
is_accepted a = a.accepted

module _ {R : Runtime} (V : Serving R) (x : Env) (es : Schedule) where
  pub mutate-IsEndOf :
      (Edit : Registrations → Registrations → Type 0) (success updating changing : String)
      (m : Registrations) (t : Task R.State)
      → Edit t.state.registrations m
      → (IsExclusive t.state.registrations → IsExclusive m)
      → IsEndOf V x is_accepted Edit t.state (mutate R x es success updating changing m t)
  unfolding registration_mutation_runtime_rejected registration_mutation_storage_rejected
  mutate-IsEndOf Edit success updating changing m t edited exclusive =
      conclude-IsEndOf V x is_accepted Edit (accepted success)
        (registration_mutation_runtime_rejected updating)
        (registration_mutation_storage_rejected changing) es
        (record { coordinator = t.state.coordinator; registrations = m }) t refl (λ e. refl)
        (λ e. refl) edited exclusive

  -- A change under `checked` is exclusive: when it enables it has no conflict, and when it disables
  -- it serves no new domain.
  pub checked-IsEndOf :
      (Edit : Registrations → Registrations → Type 0) (success updating changing id : String)
      (f : EntrypointRegistration → EntrypointRegistration) (enabled : Bool) (t : Task R.State)
      → Edit t.state.registrations (adjust id f t.state.registrations)
      → ((r : EntrypointRegistration) → (f r).registration_id ≡ r.registration_id)
      → (enabled ≡ false
          → IsExclusive t.state.registrations
          → IsExclusive (adjust id f t.state.registrations))
      → IsEndOf V x is_accepted Edit t.state (
          checked R x es success updating changing enabled id (adjust id f t.state.registrations) t)
  unfolding checked
  checked-IsEndOf Edit success updating changing id f false t edited same_id less =
      mutate-IsEndOf Edit success updating changing (adjust id f t.state.registrations) t edited
        (less refl)
  checked-IsEndOf Edit success updating changing id f true t edited same_id less =
      by_conflict (active_domain_ownership_conflict (adjust id f t.state.registrations) id) refl
    where
      by_conflict :
          (o : Option DomainOwnershipConflict)
          → active_domain_ownership_conflict (adjust id f t.state.registrations) id ≡ o
          → IsEndOf V x is_accepted Edit t.state (elim o [
            | some conflict ↦ (t, ok (refused (Str.◌++◌ (conflict_text conflict) ".")))
            | none ↦ mutate R x es success updating changing (adjust id f t.state.registrations) t
          ])
      by_conflict (some conflict) h =
          refused-IsEndOf V x is_accepted Edit (refused (Str.◌++◌ (conflict_text conflict) ".")) t
            refl
      by_conflict none h =
          mutate-IsEndOf Edit success updating changing (adjust id f t.state.registrations) t edited
            (λ e. adjust-IsExclusive_of_free id f same_id t.state.registrations e h)

  -- A mutation of a registration that is looked up and tested.
  pub found-IsEndOf :
      (Edit : Registrations → Registrations → Type 0) (id message : String)
      (test : EntrypointRegistration → Bool)
      (done : Task R.State × Result BasicResponse CommitRejection) (t : Task R.State)
      → ((r : EntrypointRegistration)
          → lookup id t.state.registrations ≡ some r
          → test r ≡ true
          → IsEndOf V x is_accepted Edit t.state done)
      → IsEndOf V x is_accepted Edit t.state (elim (lookup id t.state.registrations) [
        | none ↦ (t, ok (refused message))
        | some r ↦ (if test r then done else (t, ok (refused message)))
      ])
  found-IsEndOf Edit id message test done t step = by_found (lookup id t.state.registrations) refl
    where
      missing : IsEndOf V x is_accepted Edit t.state (t, ok (refused message))
      missing = refused-IsEndOf V x is_accepted Edit (refused message) t refl

      by_test :
          (r : EntrypointRegistration) (b : Bool)
          → lookup id t.state.registrations ≡ some r
          → test r ≡ b
          → IsEndOf V x is_accepted Edit t.state (if b then done else (t, ok (refused message)))
      by_test r true found good = step r found good
      by_test r false found good = missing

      by_found :
          (o : Option EntrypointRegistration)
          → lookup id t.state.registrations ≡ o
          → IsEndOf V x is_accepted Edit t.state (elim o [
            | none ↦ (t, ok (refused message))
            | some r ↦ (if test r then done else (t, ok (refused message)))
          ])
      by_found none found = missing
      by_found (some r) found = by_test r (test r) found refl
