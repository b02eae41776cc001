-- ===== src/Registrations/Owners.antt =====
-- The session that owns a registration, through the edits of the registrations.
use cadder.Base.{
  String, ◌≡◌, refl, false, not, Option, none, some, [], ◌∷◌, ◌==◌, string_eq, ==→eq, if◌then◌else◌,
  arith, ap, sym, ◌∙◌,
}
use cadder.Base.Dict.{lookup, insert, remove, adjust, lookup-insert, lookup-remove}
use cadder.Protocol.State.{EntrypointRegistration, nonce}
use cadder.Registrations.{Registrations, registration_has_different_owner}
use cadder.Registrations.Heartbeats.{without_heartbeats}

abbrev owner : Option EntrypointRegistration → Option String
owner none = none
owner (some r) = some (nonce r)

abbrev pub owner_of : String → Registrations → Option String
owner_of id m = owner (lookup id m)

owner_of-without :
    (id : String) (m : Registrations) → owner_of id (without_heartbeats m) ≡ owner_of id m
unfolding lookup without_heartbeats
owner_of-without id [] = refl
owner_of-without id ((j, r) ∷ m) = ground (arith, owner_of-without id m)

-- Heartbeats change no owner.
pub owner_of-heartbeats :
    (id : String) (m n : Registrations)
    → without_heartbeats n ≡ without_heartbeats m
    → owner_of id n ≡ owner_of id m
owner_of-heartbeats id m n h =
    sym (owner_of-without id n) ∙ ap (owner_of id) h ∙ owner_of-without id m

pub owner_of-insert :
    (k id : String) (r : EntrypointRegistration) (m : Registrations)
    → owner_of id (insert k r m) ≡ (if k == id then some (nonce r) else owner_of id m)
owner_of-insert k id r m = ground (arith, lookup-insert k id r m)

pub owner_of-remove :
    (k id : String) (m : Registrations)
    → owner_of id (remove k m) ≡ (if k == id then none else owner_of id m)
owner_of-remove k id m = ground (arith, lookup-remove k id m)

pub owner_of-adjust :
    (k id : String) (f : EntrypointRegistration → EntrypointRegistration) (m : Registrations)
    → ((r : EntrypointRegistration) → nonce (f r) ≡ nonce r)
    → owner_of id (adjust k f m) ≡ owner_of id m
unfolding lookup adjust
owner_of-adjust k id f [] h = refl
owner_of-adjust k id f ((j, r) ∷ m) h = ground (arith, h r, owner_of-adjust k id f m h)

-- An owner is not replaced by another one.
pub owner_of-same :
    (m : Registrations) (r : EntrypointRegistration) (n : String)
    → registration_has_different_owner m r ≡ false
    → owner_of r.registration_id m ≡ some n
    → nonce r ≡ n
unfolding registration_has_different_owner
owner_of-same m r n same owned = by_found (lookup r.registration_id m) same owned
  where
    by_found :
        (o : Option EntrypointRegistration)
        → (elim o [ none ↦ false | some e ↦ not (nonce e == nonce r) ]) ≡ false
        → owner o ≡ some n
        → nonce r ≡ n
    by_found none same owned = cc owned
    by_found (some e) same owned =
        sym (==→eq (nonce e) (nonce r) (ground (arith, same))) ∙ (cc owned)
