-- ===== src/Ipc/Ownership/Histories.antt =====
-- A connection's mutations against its cleanup. `guards` counts the guards that are held, `ledger`
-- is what was inserted and not removed, and `cleanup` is where the cleanup task stands.
use cadder.Base.{
  ℕ, zero, suc, ◌-◌, ◌≡◌, refl, String, Bool, true, false, Option, none, some, List, [], ◌∷◌,
  nat_eq, if◌then◌else◌, arith,
}
use cadder.Base.Dict.{Dict, insert, remove}
use cadder.Ipc.Ownership.{
  ConnectionOwnershipState, default_ownership, begin_mutation, end_mutation, own, disown,
  disconnect, take_entries, consume_permit,
}

pub data Cleanup : Type 0 where
  connected looping waiting : Cleanup
  took : Dict String → Cleanup

pub record Connection : Type 0 where
  pub state : ConnectionOwnershipState
  pub guards : ℕ
  pub ledger : Dict String
  pub cleanup : Cleanup

abbrev pub opened : Connection
opened = record { state = default_ownership; guards = 0; ledger = []; cleanup = connected }

-- What the tasks of a connection do. A worker inserts and removes while it holds its guard.
pub data Call : Type 0 where
  begins ends disconnects rounds wakes : Call
  inserts : (id session : String) → Call
  removes : (id : String) → Call

abbrev is_zero : ℕ → Bool
is_zero zero = true
is_zero (suc n) = false

begin_call : Connection → Connection
unfolding begin_mutation
begin_call c =
    let (s, given) = begin_mutation c.state in
    record c { state = s; guards = if given then suc c.guards else c.guards }

round_end : Option (Dict String) → Cleanup
round_end none = waiting
round_end (some entries) = took entries

round_call : Connection → Connection
unfolding take_entries round_end
round_call c =
    let (s, entries) = take_entries c.state in record c { state = s; cleanup = round_end entries }

cleanup_step : Cleanup → Call → Connection → Connection
unfolding round_call disconnect consume_permit
cleanup_step connected disconnects c = record c { state = disconnect c.state; cleanup = looping }
cleanup_step looping rounds c = round_call c
cleanup_step waiting wakes c =
    if c.state.permit then record c { state = consume_permit c.state; cleanup = looping } else c
cleanup_step _ _ c = c

pub step : Connection → Call → Connection
unfolding begin_call end_mutation own disown cleanup_step
step c begins = begin_call c
step c ends =
    if is_zero c.guards then c else record c { state = end_mutation c.state; guards = c.guards - 1 }
step c (inserts id session) =
    if is_zero c.guards
    then c
    else record c { state = own id session c.state; ledger = insert id session c.ledger }
step c (removes id) =
    if is_zero c.guards
    then c
    else record c { state = disown id c.state; ledger = remove id c.ledger }
step c disconnects = cleanup_step c.cleanup disconnects c
step c rounds = cleanup_step c.cleanup rounds c
step c wakes = cleanup_step c.cleanup wakes c

unfoldable pub run : Connection → List Call → Connection
unfolding step
run c [] = c
run c (x ∷ xs) = run (step c x) xs

-- Where the cleanup stands fits the state.
CleanupFits : Cleanup → Connection → Type 0
CleanupFits connected c = (c.state.disconnected ≡ false) × (c.state.by_registration_id ≡ c.ledger)
CleanupFits looping c = (c.state.disconnected ≡ true) × (c.state.by_registration_id ≡ c.ledger)
CleanupFits waiting c =
    (c.state.disconnected ≡ true)
    × (c.state.by_registration_id ≡ c.ledger)
    × (c.guards ≡ 0 → c.state.permit ≡ true)
CleanupFits (took entries) c = (c.state.disconnected ≡ true) × (c.guards ≡ 0) × (entries ≡ c.ledger)

record Fits (c : Connection) : Type 0 where
  counted : c.state.active_mutations ≡ c.guards
  cleanup : CleanupFits c.cleanup c

step-Fits : (c : Connection) (x : Call) → Fits c → Fits (step c x)
unfolding step begin_mutation end_mutation own disown disconnect take_entries consume_permit
    CleanupFits
step-Fits c begins h = record {
  counted = ground (arith, h.counted, h.cleanup);
  cleanup = ground (arith, h.counted, h.cleanup);
}
step-Fits c ends h = record {
  counted = ground (arith, h.counted, h.cleanup);
  cleanup = ground (arith, h.counted, h.cleanup);
}
step-Fits c (inserts id session) h = record {
  counted = ground (arith, h.counted, h.cleanup);
  cleanup = ground (arith, h.counted, h.cleanup);
}
step-Fits c (removes id) h = record {
  counted = ground (arith, h.counted, h.cleanup);
  cleanup = ground (arith, h.counted, h.cleanup);
}
step-Fits c disconnects h = record {
  counted = ground (arith, h.counted, h.cleanup);
  cleanup = ground (arith, h.counted, h.cleanup);
}
step-Fits c rounds h = record {
  counted = ground (arith, h.counted, h.cleanup);
  cleanup = ground (arith, h.counted, h.cleanup);
}
step-Fits c wakes h = record {
  counted = ground (arith, h.counted, h.cleanup);
  cleanup = ground (arith, h.counted, h.cleanup);
}

run-Fits : (xs : List Call) (c : Connection) → Fits c → Fits (run c xs)
unfolding run
run-Fits [] c h = h
run-Fits (x ∷ xs) c h = run-Fits xs (step c x) (step-Fits c x h)

opened-Fits : Fits opened
unfolding CleanupFits
opened-Fits = record { counted = refl; cleanup = (refl, refl) }

-- Whatever a connection's workers and its cleanup do, and in whatever order, the entries that the
-- cleanup took are exactly the registrations that the connection had inserted and not removed, and
-- no worker holds a guard any more, so that nothing is inserted later.
pub run-took :
    (xs : List Call) (entries : Dict String)
    → (run opened xs).cleanup ≡ took entries
    → (entries ≡ (run opened xs).ledger) × ((run opened xs).guards ≡ 0)
unfolding CleanupFits
run-took xs entries e =
    let h = run-Fits xs opened opened-Fits in ground (arith, e, h.counted, h.cleanup)

-- No wake-up is lost: a cleanup that waits while no guard is held finds the permit, and when it has
-- consumed it, its next round takes the entries.
pub run-waiting :
    (xs : List Call)
    → (run opened xs).cleanup ≡ waiting
    → (run opened xs).guards ≡ 0
    → ((run opened xs).state.permit ≡ true)
      × ((step (step (run opened xs) wakes) rounds).cleanup ≡ took (run opened xs).ledger)
unfolding CleanupFits step take_entries consume_permit
run-waiting xs e z =
    let h = run-Fits xs opened opened-Fits in
    (ground (arith, e, z, h.counted, h.cleanup), ground (arith, e, z, h.counted, h.cleanup))
