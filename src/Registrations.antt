-- ===== src/Registrations.antt =====
-- crates/cadder-daemon/src/state/registrations.rs: the tests and the edits that the mutations of
-- the registration map are made of. The mutations themselves stand in `Daemon`.
pub mod Conflicts
pub mod Exclusive
pub mod Heartbeats
pub mod Owners
use Prim.Native.Char.{code}
use Prim.Native.String as Str
use cadder.Base.{
  ℕ, ◌+◌, String, Bool, true, false, not, ◌&&◌, Option, none, some, List, [], ◌∷◌, map, ◌==◌,
  nat_eq, string_eq, leb, max, if◌then◌else◌, filter, flat_map, ◌++◌,
}
use cadder.Base.Dict.{Dict, lookup, insert, remove, adjust, values}
use cadder.Protocol.State.{
  ActivationState, is_enabled, from_enabled, RegisteredDomain, EntrypointRegistration, nonce,
}

abbrev pub Registrations : Type 0
Registrations = Dict EntrypointRegistration

abbrev is_owned_by : String → EntrypointRegistration → Bool
is_owned_by n r = nonce r == n

unfoldable pub registration_has_different_owner : Registrations → EntrypointRegistration → Bool
unfolding lookup
registration_has_different_owner m r = elim (lookup r.registration_id m) [
  | none ↦ false
  | some existing ↦ not (nonce existing == nonce r)
]

pub record DomainOwnershipConflict : Type 0 where
  pub domain : String
  pub owner_registration_id : String
  pub conflicting_registration_id : String

-- The `Display` text of a conflict.
unfoldable pub conflict_text : DomainOwnershipConflict → String
conflict_text c = Str.◌++◌ "Domain `" (
    Str.◌++◌ c.domain (
      Str.◌++◌ "` is already owned by entrypoint `" (
        Str.◌++◌ c.owner_registration_id (
          Str.◌++◌ "`; entrypoint `" (
            Str.◌++◌ c.conflicting_registration_id
              "` was not changed. Stop or disable the existing entrypoint before retrying")))))

abbrev enabled_domains : EntrypointRegistration → List RegisteredDomain
enabled_domains r = filter (λ d. is_enabled d.activation_state) r.registered_domains

abbrev owner_entry : EntrypointRegistration → RegisteredDomain → String × String
owner_entry r d = (d.name.canonical, r.registration_id)

-- The domains that the other enabled registrations own, each with its owner.
unfoldable pub owner_pairs : String → List EntrypointRegistration → List (String × String)
unfolding is_enabled
owner_pairs id [] = []
owner_pairs id (r ∷ rs) =
    let rest = owner_pairs id rs in
    if not (r.registration_id == id) && is_enabled r.activation_state
    then map (owner_entry r) (enabled_domains r) ++ rest
    else rest

-- `collect` into a map: a later pair replaces an earlier one of the same key.
unfoldable pub collect : Dict String → List (String × String) → Dict String
unfolding insert
collect m [] = m
collect m ((k, v) ∷ ps) = collect (insert k v m) ps

unfoldable pub first_owned :
    Dict String → EntrypointRegistration → List RegisteredDomain → Option DomainOwnershipConflict
unfolding lookup
first_owned owners r [] = none
first_owned owners r (d ∷ ds) = elim (lookup d.name.canonical owners) [
  | some owner ↦ some (record {
    domain = d.name.canonical;
    owner_registration_id = owner;
    conflicting_registration_id = r.registration_id;
  })
  | none ↦ first_owned owners r ds
]

candidate_conflict :
    Registrations → String → EntrypointRegistration → Option DomainOwnershipConflict
unfolding owner_pairs collect first_owned is_enabled
candidate_conflict m id r =
    if is_enabled r.activation_state
    then first_owned (collect [] (owner_pairs id (values m))) r (enabled_domains r)
    else none

unfoldable pub active_domain_ownership_conflict :
    Registrations → String → Option DomainOwnershipConflict
unfolding candidate_conflict lookup
active_domain_ownership_conflict m id = elim (lookup id m) [
  | none ↦ none
  | some r ↦ candidate_conflict m id r
]

-- One candidate entry of `merge_live_heartbeats`, with the live entry of the same key.
merge_heartbeat : Option EntrypointRegistration → EntrypointRegistration → EntrypointRegistration
merge_heartbeat none c = c
merge_heartbeat (some l) c =
    if nonce c == nonce l
    then record c { last_heartbeat_utc = max c.last_heartbeat_utc l.last_heartbeat_utc }
    else c

unfoldable pub merge_live_heartbeats : Registrations → Registrations → Registrations
unfolding merge_heartbeat lookup
merge_live_heartbeats [] live = []
merge_live_heartbeats ((id, c) ∷ m) live =
    (id, merge_heartbeat (lookup id live) c) ∷ merge_live_heartbeats m live

-- `eq_ignore_ascii_case`.
to_ascii_lower : ℕ → ℕ
to_ascii_lower c = if leb 65 c && leb c 90 then c + 32 else c

eq_lower : String → String → Bool
unfolding to_ascii_lower
eq_lower Str.[] Str.[] = true
eq_lower (Str.◌∷◌ c s) (Str.◌∷◌ d t) =
    to_ascii_lower (code c) == to_ascii_lower (code d) && eq_lower s t
eq_lower _ _ = false

unfoldable pub eq_ignore_ascii_case : String → String → Bool
unfolding eq_lower
eq_ignore_ascii_case a b = eq_lower a b

-- `iter_mut().find(..)` and the write through it: the first domain of that key.
unfoldable pub set_domain : String → Bool → List RegisteredDomain → List RegisteredDomain
unfolding eq_ignore_ascii_case from_enabled
set_domain key enabled [] = []
set_domain key enabled (d ∷ ds) =
    if eq_ignore_ascii_case d.name.canonical key
    then record d { activation_state = from_enabled enabled } ∷ ds
    else d ∷ set_domain key enabled ds

unfoldable pub has_domain : String → List RegisteredDomain → Bool
unfolding eq_ignore_ascii_case
has_domain key [] = false
has_domain key (d ∷ ds) =
    if eq_ignore_ascii_case d.name.canonical key then true else has_domain key ds

abbrev pub with_domain : String → Bool → EntrypointRegistration → EntrypointRegistration
with_domain key enabled r = record r {
  registered_domains = set_domain key enabled r.registered_domains;
}

abbrev pub with_activation : Bool → EntrypointRegistration → EntrypointRegistration
with_activation enabled r = record r { activation_state = from_enabled enabled }
