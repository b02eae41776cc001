-- ===== src/Database/Rows.antt =====
-- The desired states that the rows of the domains keep.
use cadder.Base.{
  String, ◌≡◌, refl, ◌≢◌, Bool, false, none, some, List, [], ◌∷◌, ◌++◌, ok, string_eq, arith, All,
  if◌then◌else◌,
}
use cadder.Protocol.State.{is_enabled, RegisteredDomain}
use cadder.Database.{
  DomainRow, is_row, delete_domains, has_row, domain_row, insert_domains, desired_domain,
}
use text.Mathlib.TextEquality.{eq_iff}

desired_domain-append :
    (key domain : String) (rows : List DomainRow) (row : DomainRow)
    → desired_domain key domain (rows ++ row ∷ [])
      ≡ (if is_row key domain row then some row.desired_enabled else desired_domain key domain rows)
unfolding desired_domain
desired_domain-append key domain [] row = ground arith
desired_domain-append key domain (x ∷ rows) row =
    ground (arith, desired_domain-append key domain rows row)

desired_domain_absent :
    (key domain : String) (rows : List DomainRow)
    → has_row key domain rows ≡ false
    → desired_domain key domain rows ≡ none
unfolding desired_domain has_row
desired_domain_absent key domain [] h = refl
desired_domain_absent key domain (x ∷ rows) h =
    ground (arith, desired_domain_absent key domain rows)

pub desired_domain-delete_domains :
    (key other domain : String) (rows : List DomainRow)
    → key ≢ other
    → desired_domain other domain (delete_domains key rows) ≡ desired_domain other domain rows
unfolding desired_domain delete_domains
desired_domain-delete_domains key other domain [] n = refl
desired_domain-delete_domains key other domain (x ∷ rows) n = ground (
  arith,
  eq_iff x.entrypoint_key key,
  eq_iff x.entrypoint_key other,
  desired_domain-delete_domains key other domain rows n,
)

-- Rows that are inserted without a violation leave the desired states of the others alone.
pub insert_domains_keeps :
    (key k domain : String) (b : Bool) (ds : List RegisteredDomain) (rows rows' : List DomainRow)
    → insert_domains key ds rows ≡ ok rows'
    → desired_domain k domain rows ≡ some b
    → desired_domain k domain rows' ≡ some b
unfolding insert_domains
insert_domains_keeps key k domain b [] rows rows' e h = ground arith
insert_domains_keeps key k domain b (d ∷ ds) rows rows' e h =
    insert_domains_keeps key k domain b ds (rows ++ domain_row key d ∷ []) rows' (ground arith) (
      ground (
        arith,
        desired_domain-append k domain rows (domain_row key d),
        desired_domain_absent key d.name.canonical rows,
        eq_iff key k,
        eq_iff d.name.canonical domain,
      ))

abbrev pub IsPersisted : String → List DomainRow → RegisteredDomain → Type 0
IsPersisted key rows d =
    desired_domain key d.name.canonical rows ≡ some (is_enabled d.activation_state)

pub insert_domains_persists :
    (key : String) (ds : List RegisteredDomain) (rows rows' : List DomainRow)
    → insert_domains key ds rows ≡ ok rows'
    → All (IsPersisted key rows') ds
unfolding insert_domains
insert_domains_persists key [] rows rows' e = tt
insert_domains_persists key (d ∷ ds) rows rows' e =
    let e' : insert_domains key ds (rows ++ domain_row key d ∷ []) ≡ ok rows' = ground (arith, e) in
    (
      insert_domains_keeps key key d.name.canonical (is_enabled d.activation_state) ds
          (rows ++ domain_row key d ∷ []) rows' e'
          (ground (
            arith,
            desired_domain-append key d.name.canonical rows (domain_row key d),
            eq_iff key key,
            eq_iff d.name.canonical d.name.canonical,
          )),
      insert_domains_persists key ds (rows ++ domain_row key d ∷ []) rows' e',
    )
