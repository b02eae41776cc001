-- ===== src/Daemon/Mutations/Effects.antt =====
-- What each mutation of the registrations does: its edit, whole, or nothing.
use cadder.Base.{String, ◌≡◌, refl, true, some, ◌==◌, string_eq, sym, subst, ==→eq}
use cadder.Base.Dict.{lookup, remove, adjust}
use cadder.Daemon.{DaemonState, Task, Env}
use cadder.Daemon.Candidates.{
  mutate, names_owner, unregister_candidate, checked, set_entrypoint_candidate,
  set_domain_candidate,
}
use cadder.Daemon.Mutations.{
  unregister_fenced, unregister, set_entrypoint_enabled_fenced, set_entrypoint_enabled,
  set_domain_enabled_fenced, set_domain_enabled,
}
use cadder.Daemon.Responses.{mutation_rejected}
use cadder.Daemon.Mutations.Outcome.{IsOutcome, IsEndOf, admitted-IsEndOf, with_fence-IsOutcome}
use cadder.Daemon.Transaction.{Schedule}
use cadder.Protocol.Messages.{SetEntrypointEnabledPayload, SetDomainEnabledPayload}
use cadder.Protocol.State.{EntrypointRegistration, nonce}
use cadder.Registrations.{Registrations, with_activation, with_domain, has_domain}
use cadder.Registrations.Conflicts.{serves}
use cadder.Registrations.Exclusive.Edits.{
  remove-IsExclusive, adjust-IsExclusive_of_less, serves-with_activation-false,
  serves-with_domain-false,
}
use cadder.Runtime.{Runtime, Serving}
use cadder.Daemon.Mutations.Editing.{is_accepted, mutate-IsEndOf, checked-IsEndOf, found-IsEndOf}

-- The edits, with what was checked of the registration that they are about.
abbrev pub Unregisters : String → String → Registrations → Registrations → Type 0
Unregisters id session m n =
    (r : EntrypointRegistration) × (lookup id m ≡ some r) × (nonce r ≡ session) × (n ≡ remove id m)

abbrev pub SetsEntrypoint : SetEntrypointEnabledPayload → Registrations → Registrations → Type 0
SetsEntrypoint p m n =
    (r : EntrypointRegistration) × (lookup p.registration_id m ≡ some r)
    × (names_owner p.shim_session_nonce r ≡ true)
    × (n ≡ adjust p.registration_id (with_activation p.enabled) m)

abbrev pub SetsDomain : SetDomainEnabledPayload → Registrations → Registrations → Type 0
SetsDomain p m n =
    (r : EntrypointRegistration) × (lookup p.registration_id m ≡ some r)
    × (has_domain p.domain_key r.registered_domains ≡ true)
    × (n ≡ adjust p.registration_id (with_domain p.domain_key p.enabled) m)

module _ {R : Runtime} (V : Serving R) (x : Env) (es : Schedule) where
  module _ (id session : String) where
    unregister_candidate-IsEndOf :
        (t : Task R.State)
        → IsEndOf V x is_accepted
            (Unregisters id session)
            t.state
            (unregister_candidate R x es id session t)
    unfolding unregister_candidate
    unregister_candidate-IsEndOf t =
        found-IsEndOf V x es (Unregisters id session) id
          "Entrypoint was not found for the requested owner." (λ r. nonce r == session)
          (mutate R x es "Entrypoint unregistered." "unregister entrypoint" "unregister entrypoint"
            (remove id t.state.registrations) t)
          t
          (λ r found owns.
            mutate-IsEndOf V x es (Unregisters id session) "Entrypoint unregistered."
              "unregister entrypoint" "unregister entrypoint" (remove id t.state.registrations) t
              (r, found, ==→eq (nonce r) session owns, refl)
              (remove-IsExclusive id t.state.registrations))

    pub unregister_fenced-IsEndOf :
        (t : Task R.State)
        → IsEndOf V x is_accepted
            (Unregisters id session)
            t.state
            (unregister_fenced R x es id session t)
    unfolding unregister_fenced
    unregister_fenced-IsEndOf t =
        admitted-IsEndOf V x is_accepted (Unregisters id session) es
          (unregister_candidate R x es id session) t unregister_candidate-IsEndOf

    -- `unregister` either answers that it was refused, and then no desired state has changed and
    -- Caddy serves what it did unless the daemon is to shut down; or that it was accepted, and then
    -- the registration of that id, which had that session's nonce, is gone from the published,
    -- stored and served state. What other tasks do meanwhile does not matter.
    pub unregister_effect :
        (d : DaemonState R.State)
        → IsOutcome V x
            (Unregisters id session)
            (unregister R x es id session d).1.accepted
            d
            (unregister R x es id session d).0
    unfolding unregister mutation_rejected
    unregister_effect d =
        with_fence-IsOutcome V x is_accepted (Unregisters id session) mutation_rejected
          (unregister_fenced R x es id session) d (λ e. refl) unregister_fenced-IsEndOf

  module _ (p : SetEntrypointEnabledPayload) where
    set_entrypoint_candidate-IsEndOf :
        (t : Task R.State)
        → IsEndOf V x is_accepted (SetsEntrypoint p) t.state (set_entrypoint_candidate R x es p t)
    unfolding set_entrypoint_candidate
    set_entrypoint_candidate-IsEndOf t =
        found-IsEndOf V x es (SetsEntrypoint p) p.registration_id "Entrypoint was not found."
          (names_owner p.shim_session_nonce)
          (checked R x es "Entrypoint activation updated." "update entrypoint activation"
            "change entrypoint activation" p.enabled p.registration_id
            (adjust p.registration_id (with_activation p.enabled) t.state.registrations) t)
          t
          (λ r found owns.
            checked-IsEndOf V x es (SetsEntrypoint p) "Entrypoint activation updated."
              "update entrypoint activation" "change entrypoint activation" p.registration_id
              (with_activation p.enabled) p.enabled t (r, found, owns, refl) (λ s. refl)
              (λ off e.
                adjust-IsExclusive_of_less p.registration_id (with_activation p.enabled) (λ s. refl)
                  t.state.registrations e
                  (λ s k.
                    subst (λ b. serves k (with_activation b s) ≡ true → serves k s ≡ true) (sym off)
                      (serves-with_activation-false s k))))

    pub set_entrypoint_enabled_fenced-IsEndOf :
        (t : Task R.State)
        → IsEndOf V x is_accepted
            (SetsEntrypoint p)
            t.state
            (set_entrypoint_enabled_fenced R x es p t)
    unfolding set_entrypoint_enabled_fenced
    set_entrypoint_enabled_fenced-IsEndOf t =
        admitted-IsEndOf V x is_accepted (SetsEntrypoint p) es (set_entrypoint_candidate R x es p) t
          set_entrypoint_candidate-IsEndOf

    -- `set_entrypoint_enabled` either answers that it was refused, and then no desired state has
    -- changed and Caddy serves what it did unless the daemon is to shut down; or that it was
    -- accepted, and then exactly the activation of the registration of that id, whose nonce is the
    -- requested one if one was given, is set in the published, stored and served state.
    pub set_entrypoint_enabled_effect :
        (d : DaemonState R.State)
        → IsOutcome V x
            (SetsEntrypoint p)
            (set_entrypoint_enabled R x es p d).1.accepted
            d
            (set_entrypoint_enabled R x es p d).0
    unfolding set_entrypoint_enabled mutation_rejected
    set_entrypoint_enabled_effect d =
        with_fence-IsOutcome V x is_accepted (SetsEntrypoint p) mutation_rejected
          (set_entrypoint_enabled_fenced R x es p) d (λ e. refl)
          set_entrypoint_enabled_fenced-IsEndOf

  module _ (p : SetDomainEnabledPayload) where
    set_domain_candidate-IsEndOf :
        (t : Task R.State)
        → IsEndOf V x is_accepted (SetsDomain p) t.state (set_domain_candidate R x es p t)
    unfolding set_domain_candidate
    set_domain_candidate-IsEndOf t =
        found-IsEndOf V x es (SetsDomain p) p.registration_id "Domain was not found."
          (λ r. has_domain p.domain_key r.registered_domains)
          (checked R x es "Domain activation updated." "update domain activation"
            "change domain activation" p.enabled p.registration_id
            (adjust p.registration_id (with_domain p.domain_key p.enabled) t.state.registrations) t)
          t
          (λ r found has.
            checked-IsEndOf V x es (SetsDomain p) "Domain activation updated."
              "update domain activation" "change domain activation" p.registration_id
              (with_domain p.domain_key p.enabled) p.enabled t (r, found, has, refl) (λ s. refl)
              (λ off e.
                adjust-IsExclusive_of_less p.registration_id (with_domain p.domain_key p.enabled)
                  (λ s. refl) t.state.registrations e
                  (λ s k.
                    subst (λ b. serves k (with_domain p.domain_key b s) ≡ true → serves k s ≡ true)
                      (sym off) (serves-with_domain-false p.domain_key s k))))

    pub set_domain_enabled_fenced-IsEndOf :
        (t : Task R.State)
        → IsEndOf V x is_accepted (SetsDomain p) t.state (set_domain_enabled_fenced R x es p t)
    unfolding set_domain_enabled_fenced
    set_domain_enabled_fenced-IsEndOf t =
        admitted-IsEndOf V x is_accepted (SetsDomain p) es (set_domain_candidate R x es p) t
          set_domain_candidate-IsEndOf

    pub set_domain_enabled_effect :
        (d : DaemonState R.State)
        → IsOutcome V x
            (SetsDomain p)
            (set_domain_enabled R x es p d).1.accepted
            d
            (set_domain_enabled R x es p d).0
    unfolding set_domain_enabled mutation_rejected
    set_domain_enabled_effect d =
        with_fence-IsOutcome V x is_accepted (SetsDomain p) mutation_rejected
          (set_domain_enabled_fenced R x es p) d (λ e. refl)
          (λ t.
            admitted-IsEndOf V x is_accepted (SetsDomain p) es (set_domain_candidate R x es p) t
              set_domain_candidate-IsEndOf)
