-- ===== src/Ipc/Ownership.antt =====
-- `ConnectionOwnership` of crates/cadder-daemon/src/ipc/authorization.rs: the registrations that a
-- connection made, which its cleanup takes when it disconnects and no mutation of it is under way.
-- `permit` is that of the `Notify`: `notify_one` stores it when no one waits, and wakes a waiter.
pub mod Histories
use cadder.Base.{
  ℕ, suc, ◌+◌, ◌-◌, String, Bool, true, false, ◌&&◌, Option, none, some, [], ◌==◌, nat_eq,
  if◌then◌else◌,
}
use cadder.Base.Dict.{Dict, insert, remove}

pub record ConnectionOwnershipState : Type 0 where
  pub by_registration_id : Dict String
  pub active_mutations : ℕ
  pub disconnected : Bool
  pub permit : Bool

abbrev pub default_ownership : ConnectionOwnershipState
default_ownership = record {
  by_registration_id = [];
  active_mutations = 0;
  disconnected = false;
  permit = false;
}

-- `begin_mutation`: the new state, and whether a guard was given.
unfoldable pub begin_mutation : ConnectionOwnershipState → ConnectionOwnershipState × Bool
begin_mutation s =
    if s.disconnected
    then (s, false)
    else (record s { active_mutations = s.active_mutations + 1 }, true)

-- The drop of a guard, which is counted: the source subtracts one from a count that is not zero.
unfoldable pub end_mutation : ConnectionOwnershipState → ConnectionOwnershipState
end_mutation s =
    let active = s.active_mutations - 1 in
    if s.disconnected && active == 0
    then record s { active_mutations = active; permit = true }
    else record s { active_mutations = active }

unfoldable pub own : String → String → ConnectionOwnershipState → ConnectionOwnershipState
unfolding insert
own id session s = record s { by_registration_id = insert id session s.by_registration_id }

unfoldable pub disown : String → ConnectionOwnershipState → ConnectionOwnershipState
unfolding remove
disown id s = record s { by_registration_id = remove id s.by_registration_id }

unfoldable pub disconnect : ConnectionOwnershipState → ConnectionOwnershipState
disconnect s = record s { disconnected = true }

-- One round of the loop of `disconnect_and_take_entries`: the entries, or none and the loop waits.
unfoldable pub take_entries :
    ConnectionOwnershipState → ConnectionOwnershipState × Option (Dict String)
take_entries s =
    if s.active_mutations == 0
    then (record s { by_registration_id = [] }, some s.by_registration_id)
    else (s, none)

-- `mutations_finished.await`: the permit is consumed.
unfoldable pub consume_permit : ConnectionOwnershipState → ConnectionOwnershipState
consume_permit s = record s { permit = false }
