-- ===== src/Database/RoundTrip.antt =====
-- What was persisted comes back when a project registers again.
use cadder.Base.{
  String, ◌≡◌, refl, ap, Result, ◌≢◌, ◌⊎◌, true, Bool, Option, none, some, List, [], ◌∷◌, ◌++◌, map,
  ok, err, string_eq, arith, All, ◌∙◌, inl, inr, Result-cases,
}
use cadder.Base.Dict.{lookup, lookup-insert}
use cadder.Protocol.State.{
  ActivationState, is_enabled, from_enabled, RegisteredDomain, EntrypointRegistration,
}
use cadder.Database.{
  DomainRow, Tables, project_root, row_of, upsert_entrypoint, delete_domains, insert_domains,
  persist_one, persist_all, persist_desired_state, desired_domain, StorageFault, committed,
  uncommitted, commits_late, restore_domain, restore_desired_state,
}
use text.Mathlib.TextEquality.{eq_iff}
use cadder.Database.Rows.{
  IsPersisted, desired_domain-delete_domains, insert_domains_keeps, insert_domains_persists,
}

-- The tables hold the desired activation of the registration and of each of its domains.
abbrev Holds : EntrypointRegistration → Tables → Type 0
Holds r t =
    (lookup (project_root r) t.entrypoints ≡ some (row_of r))
    × All (IsPersisted (project_root r) t.domains) r.registered_domains

persist_one-Holds :
    (r : EntrypointRegistration) (t t' : Tables) → persist_one r t ≡ ok t' → Holds r t'
unfolding persist_one upsert_entrypoint
persist_one-Holds r t t' e =
    elim (Result-cases (
      insert_domains (project_root r) r.registered_domains
        (delete_domains (project_root r) t.domains))) [
          | inl (rows, done) ↦
              let same : rows ≡ t'.domains = ground (arith, done, e) in
              (
                ground (
                  arith,
                  e,
                  lookup-insert (project_root r) (project_root r) (row_of r) t.entrypoints,
                  eq_iff (project_root r) (project_root r),
                ),
                rw (← same) (
                    insert_domains_persists (project_root r) r.registered_domains
                      (delete_domains (project_root r) t.domains) rows done),
              )
          | inr (x, failed) ↦ absurd (ground (arith, failed, e))
        ]

All-IsPersisted_keeps :
    (key : String) (ds : List RegisteredDomain) (rows rows' : List DomainRow)
    → ((domain : String) (b : Bool)
        → desired_domain key domain rows ≡ some b
        → desired_domain key domain rows' ≡ some b)
    → All (IsPersisted key rows) ds
    → All (IsPersisted key rows') ds
All-IsPersisted_keeps key [] rows rows' keep h = tt
All-IsPersisted_keeps key (d ∷ ds) rows rows' keep h = (
  keep d.name.canonical (is_enabled d.activation_state) h.0,
  All-IsPersisted_keeps key ds rows rows' keep h.1,
)

persist_one_keeps :
    (r s : EntrypointRegistration) (t t' : Tables)
    → persist_one s t ≡ ok t'
    → project_root s ≢ project_root r
    → Holds r t
    → Holds r t'
unfolding persist_one upsert_entrypoint
persist_one_keeps r s t t' e n h =
    elim (Result-cases (
      insert_domains (project_root s) s.registered_domains
        (delete_domains (project_root s) t.domains))) [
          | inl (rows, done) ↦
              let same : rows ≡ t'.domains = ground (arith, done, e) in
              (
                ground (
                  arith,
                  e,
                  h.0,
                  lookup-insert (project_root s) (project_root r) (row_of s) t.entrypoints,
                  eq_iff (project_root s) (project_root r),
                ),
                rw (← same) (
                    All-IsPersisted_keeps (project_root r) r.registered_domains t.domains rows
                      (λ domain b here.
                        insert_domains_keeps (project_root s) (project_root r) domain b
                          s.registered_domains (delete_domains (project_root s) t.domains) rows done
                          (desired_domain-delete_domains (project_root s) (project_root r) domain
                              t.domains n
                            ∙ here))
                      h.1),
              )
          | inr (x, failed) ↦ absurd (ground (arith, failed, e))
        ]

persist_all_keeps :
    (r : EntrypointRegistration) (rs : List EntrypointRegistration) (t t' : Tables)
    → persist_all rs t ≡ ok t'
    → All (λ s. project_root s ≢ project_root r) rs
    → Holds r t
    → Holds r t'
unfolding persist_all
persist_all_keeps r [] t t' e a h = ground (arith, h)
persist_all_keeps r (s ∷ rs) t t' e a h = elim (Result-cases (persist_one s t)) [
  | inl (u, done) ↦
      persist_all_keeps r rs u t' (rw (done, persist_all) at e) a.1
        (persist_one_keeps r s t u done a.0 h)
  | inr (x, failed) ↦ absurd (ground (arith, failed, e))
]

persist_all-Holds :
    (before : List EntrypointRegistration) (r : EntrypointRegistration)
    (later : List EntrypointRegistration) (t t' : Tables)
    → All (λ s. project_root s ≢ project_root r) later
    → persist_all (before ++ r ∷ later) t ≡ ok t'
    → Holds r t'
unfolding persist_all
persist_all-Holds [] r later t t' a e = elim (Result-cases (persist_one r t)) [
  | inl (u, done) ↦
      persist_all_keeps r later u t' (rw (done, persist_all) at e) a (persist_one-Holds r t u done)
  | inr (x, failed) ↦ absurd (ground (arith, failed, e))
]
persist_all-Holds (s ∷ before) r later t t' a e = elim (Result-cases (persist_one s t)) [
  | inl (u, done) ↦ persist_all-Holds before r later u t' a (rw (done, persist_all) at e)
  | inr (x, failed) ↦ absurd (ground (arith, failed, e))
]

abbrev pub in_state : (RegisteredDomain → ActivationState) → RegisteredDomain → RegisteredDomain
in_state each d = record d { activation_state = each d }

-- A registration that comes with activation states of its own.
abbrev pub arriving :
    ActivationState
    → (RegisteredDomain → ActivationState)
    → EntrypointRegistration
    → EntrypointRegistration
arriving a each r = record r {
  activation_state = a;
  registered_domains = map (in_state each) r.registered_domains;
}

map_own : (ds : List RegisteredDomain) → map (in_state (λ d. d.activation_state)) ds ≡ ds
map_own [] = refl
map_own (d ∷ ds) = ap (◌∷◌ d) (map_own ds)

pub arriving_own :
    (r : EntrypointRegistration) → arriving r.activation_state (λ d. d.activation_state) r ≡ r
arriving_own r = ap (λ ds. record r { registered_domains = ds }) (map_own r.registered_domains)

restored_inj :
    {r s : EntrypointRegistration}
    → ◌≡◌ {A = Result EntrypointRegistration String} (ok r) (ok s)
    → s ≡ r
restored_inj e = cc e

-- What is restored differs from what came in its activation states alone.
pub restore_desired_state-arriving :
    (fault : Option String) (t : Tables) (r s : EntrypointRegistration)
    → restore_desired_state fault t r ≡ ok s
    → (a : ActivationState) × (each : RegisteredDomain → ActivationState) × (s ≡ arriving a each r)
unfolding restore_desired_state restore_domain
restore_desired_state-arriving (some e) t r s h = absurd (cc h)
restore_desired_state-arriving none t r s h = (_, _, restored_inj h)

-- The activation that the tables keep: enabled or not.
abbrev pub kept : ActivationState → ActivationState
kept a = from_enabled (is_enabled a)

restore_domains :
    (key : String) (rows : List DomainRow) (each : RegisteredDomain → ActivationState)
    (ds : List RegisteredDomain)
    → All (IsPersisted key rows) ds
    → map (restore_domain key rows) (map (in_state each) ds)
      ≡ map (in_state (λ d. kept d.activation_state)) ds
unfolding restore_domain
restore_domains key rows each [] h = refl
restore_domains key rows each (d ∷ ds) h = cc (h.0, restore_domains key rows each ds h.1)

-- After a successful write of the desired states, a registration that was written, and whose
-- project root no later one shares, gets its activation and its domains' back when it registers
-- again, whatever activation it then brings.
pub restore-persist :
    (before : List EntrypointRegistration) (r : EntrypointRegistration)
    (later : List EntrypointRegistration) (t t' : Tables) (a : ActivationState)
    (each : RegisteredDomain → ActivationState)
    → All (λ s. project_root s ≢ project_root r) later
    → persist_desired_state none (before ++ r ∷ later) t ≡ (t', ok tt)
    → restore_desired_state none t' (arriving a each r)
      ≡ ok (arriving (kept r.activation_state) (λ d. kept d.activation_state) r)
unfolding persist_desired_state restore_desired_state
restore-persist before r later t t' a each apart e =
    let h = persist_all-Holds before r later t t' apart (ground (arith, e)) in
    cc (h.0, restore_domains (project_root r) t'.domains each r.registered_domains h.1)

-- A write that reports an error leaves the tables as they were, or has committed before its deadline
-- was reported.
pub persist_failed :
    (fault : Option StorageFault) (rs : List EntrypointRegistration) (t : Tables) (x : String)
    → (persist_desired_state fault rs t).1 ≡ err x
    → ((persist_desired_state fault rs t).0 ≡ t)
      ⊎ ((commits_late fault ≡ true) × (persist_all rs t ≡ ok (persist_desired_state fault rs t).0))
unfolding persist_desired_state
persist_failed none rs t x e = inl (ground (arith, e))
persist_failed (some (uncommitted f)) rs t x e = inl refl
persist_failed (some (committed f)) rs t x e = elim (Result-cases (persist_all rs t)) [
  | inl (t', done) ↦ inr (refl, ground (arith, done))
  | inr (y, failed) ↦ inl (ground (arith, failed))
]
