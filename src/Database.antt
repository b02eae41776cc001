-- ===== src/Database.antt =====
-- crates/cadder-daemon/src/database.rs: the tables for the desired activation, and the two
-- operations on them. A transaction that does not commit leaves the tables as they were.
pub mod Rows
pub mod RoundTrip
use cadder.Base.{
  ℕ, String, Bool, true, false, not, ◌&&◌, ◌||◌, Option, none, some, List, [], ◌∷◌, ◌++◌, map,
  Result, ok, err, ◌>>=◌, ◌==◌, string_eq, if◌then◌else◌,
}
use cadder.Base.Dict.{Dict, lookup, insert}
use cadder.Protocol.State.{
  ActivationState, is_enabled, from_enabled, RegisteredDomain, EntrypointRegistration,
}

pub record EntrypointRow : Type 0 where
  pub registration_id : String
  pub project_root : String
  pub caddyfile_path : String
  pub desired_enabled : Bool

pub record DomainRow : Type 0 where
  pub entrypoint_key : String
  pub domain_key : String
  pub canonical_host : String
  pub desired_enabled : Bool

-- `entrypoints` is keyed by its primary key; `domains` has (entrypoint_key, domain_key) for its own.
pub record Tables : Type 0 where
  pub entrypoints : Dict EntrypointRow
  pub domains : List DomainRow

abbrev pub project_root : EntrypointRegistration → String
project_root r = r.source_working_directory.raw

abbrev pub row_of : EntrypointRegistration → EntrypointRow
row_of r = record {
  registration_id = r.registration_id;
  project_root = project_root r;
  caddyfile_path = r.source_config_path.raw;
  desired_enabled = is_enabled r.activation_state;
}

-- Another row has the registration id, which is UNIQUE.
unfoldable pub id_is_taken : String → String → Dict EntrypointRow → Bool
id_is_taken key id [] = false
id_is_taken key id ((k, row) ∷ m) =
    not (k == key) && row.registration_id == id || id_is_taken key id m

unfoldable pub upsert_entrypoint : EntrypointRegistration → Tables → Result Tables String
unfolding id_is_taken insert
upsert_entrypoint r t =
    if id_is_taken (project_root r) r.registration_id t.entrypoints
    then err "UNIQUE constraint failed: entrypoints.registration_id"
    else ok (record t { entrypoints = insert (project_root r) (row_of r) t.entrypoints })

abbrev pub is_row : String → String → DomainRow → Bool
is_row key domain row = row.entrypoint_key == key && row.domain_key == domain

unfoldable pub delete_domains : String → List DomainRow → List DomainRow
delete_domains key [] = []
delete_domains key (row ∷ rows) =
    let rest = delete_domains key rows in if row.entrypoint_key == key then rest else row ∷ rest

unfoldable pub has_row : String → String → List DomainRow → Bool
has_row key domain [] = false
has_row key domain (row ∷ rows) = is_row key domain row || has_row key domain rows

abbrev pub domain_row : String → RegisteredDomain → DomainRow
domain_row key d = record {
  entrypoint_key = key;
  domain_key = d.name.canonical;
  canonical_host = d.name.canonical;
  desired_enabled = is_enabled d.activation_state;
}

unfoldable pub insert_domains :
    String → List RegisteredDomain → List DomainRow → Result (List DomainRow) String
unfolding has_row is_enabled
insert_domains key [] rows = ok rows
insert_domains key (d ∷ ds) rows =
    let rest = insert_domains key ds (rows ++ domain_row key d ∷ []) in
    if has_row key d.name.canonical rows
    then err "UNIQUE constraint failed: domains.entrypoint_key, domains.domain_key"
    else rest

unfoldable pub persist_one : EntrypointRegistration → Tables → Result Tables String
unfolding upsert_entrypoint delete_domains insert_domains
persist_one r t = do
  t' ← upsert_entrypoint r t
  rows ←
      insert_domains (project_root r) r.registered_domains
        (delete_domains (project_root r) t'.domains)
  ok (record t' { domains = rows })

unfoldable pub persist_all : List EntrypointRegistration → Tables → Result Tables String
unfolding persist_one
persist_all [] t = ok t
persist_all (r ∷ rs) t = do t' ← persist_one r t; persist_all rs t'

-- How `Database::call` fails other than by a constraint: nothing was committed, or the call ended
-- after its deadline, and then what it had committed stays although the deadline is reported.
pub data StorageFault : Type 0 where
  uncommitted committed : String → StorageFault

abbrev pub commits_late : Option StorageFault → Bool
commits_late (some (committed e)) = true
commits_late (some (uncommitted e)) = false
commits_late none = false

-- The new tables, or an error, after which they are the old ones unless it came after the commit.
unfoldable pub persist_desired_state :
    Option StorageFault → List EntrypointRegistration → Tables → Tables × Result (Unit {0}) String
unfolding persist_all
persist_desired_state (some (uncommitted e)) rs t = (t, err e)
persist_desired_state (some (committed e)) rs t = elim (persist_all rs t) [
  | ok t' ↦ (t', err e)
  | err constraint ↦ (t, err e)
]
persist_desired_state none rs t = elim (persist_all rs t) [
  | ok t' ↦ (t', ok tt)
  | err e ↦ (t, err e)
]

-- The map that the query fills: a later row of a domain replaces an earlier one.
unfoldable pub desired_domain : String → String → List DomainRow → Option Bool
desired_domain key domain [] = none
desired_domain key domain (row ∷ rows) = elim (desired_domain key domain rows) [
  | some b ↦ some b
  | none ↦ if is_row key domain row then some row.desired_enabled else none
]

abbrev restored : Option Bool → ActivationState → ActivationState
restored none a = a
restored (some enabled) a = from_enabled enabled

restore_domain : String → List DomainRow → RegisteredDomain → RegisteredDomain
unfolding desired_domain from_enabled
restore_domain key rows d = record d {
  activation_state = restored (desired_domain key d.name.canonical rows) d.activation_state;
}

abbrev desired_entrypoint : Option EntrypointRow → Option Bool
desired_entrypoint none = none
desired_entrypoint (some row) = some row.desired_enabled

unfoldable pub restore_desired_state :
    Option String → Tables → EntrypointRegistration → Result EntrypointRegistration String
unfolding restore_domain lookup from_enabled
restore_desired_state (some e) t r = err e
restore_desired_state none t r = ok (record r {
  activation_state =
      restored (desired_entrypoint (lookup (project_root r) t.entrypoints)) r.activation_state;
  registered_domains = map (restore_domain (project_root r) t.domains) r.registered_domains;
})
