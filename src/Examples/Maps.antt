-- ===== src/Examples/Maps.antt =====
-- The registration map and the tables of desired state.
use cadder.Base.{String, ◌≡◌, refl, ◌≢◌, none, [], ◌∷◌, ok, eq→==}
use cadder.Database.{Tables, persist_desired_state, restore_desired_state}
use cadder.Database.RoundTrip.{arriving, kept, restore-persist}
use cadder.Examples.{registration, shop, rival}
use cadder.Protocol.State.{ActivationState, EntrypointRegistration, from_enabled, is_enabled}
use cadder.Registrations.{Registrations, DomainOwnershipConflict}

abbrev blog : EntrypointRegistration
blog = registration "blog" "three" "blog.localhost" ActivationState.active

abbrev two : Registrations
two = ("blog", blog) ∷ ("shop", shop) ∷ []

abbrev three : Registrations
three = ("blog", blog) ∷ ("rival", rival) ∷ ("shop", shop) ∷ []

apart : ◌≢◌ {A = String} "shop" "blog"
apart e = cc (eq→== "shop" "blog" e)

abbrev dispute : DomainOwnershipConflict
dispute = record {
  domain = "shop.localhost";
  owner_registration_id = "shop";
  conflicting_registration_id = "rival";
}

abbrev later_shop : Registrations
later_shop = ("shop", record shop { last_heartbeat_utc = 9 }) ∷ []

abbrev no_tables : Tables
no_tables = record { entrypoints = []; domains = [] }

abbrev paused : EntrypointRegistration
paused = registration "blog" "three" "blog.localhost" ActivationState.inactive

abbrev written : Tables
written = (persist_desired_state none (paused ∷ shop ∷ []) no_tables).0

restore-persist_example :
    restore_desired_state none written
      (arriving ActivationState.active (λ d. ActivationState.registered) paused)
    ≡ ok (arriving ActivationState.inactive (λ d. kept d.activation_state) paused)
unfolding persist_desired_state from_enabled is_enabled
restore-persist_example =
    restore-persist [] paused (shop ∷ []) no_tables written ActivationState.active
      (λ d. ActivationState.registered) (apart, tt) refl
