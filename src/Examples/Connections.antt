-- ===== src/Examples/Connections.antt =====
-- A connection that registers the shop and goes while a second mutation is under way, the daemon's
-- shutdown, and its log query.
use cadder.Base.{String, ◌≡◌, refl, ◌≢◌, List, [], ◌∷◌, true, eq→==}
use cadder.Base.Dict.{Dict}
use cadder.Daemon.{DaemonState}
use cadder.Examples.{shop, fresh}
use cadder.Ipc.Ownership.Histories.{
  Call, begins, ends, inserts, disconnects, rounds, wakes, took, opened, step, run, run-took,
  run-waiting,
}
use cadder.Runtime.Mock.{MockState}

abbrev left : List Call
left = begins ∷ inserts "shop" "one" ∷ ends ∷ begins ∷ disconnects ∷ rounds ∷ ends ∷ []

abbrev cleaned : List Call
cleaned = begins ∷ inserts "shop" "one" ∷ ends ∷ disconnects ∷ rounds ∷ begins ∷ []

abbrev entries : Dict String
entries = ("shop", "one") ∷ []

run-took_example : (entries ≡ (run opened cleaned).ledger) × ((run opened cleaned).guards ≡ 0)
unfolding run
run-took_example = run-took cleaned entries refl

run-waiting_example :
    ((run opened left).state.permit ≡ true)
    × ((step (step (run opened left) wakes) rounds).cleanup ≡ took (run opened left).ledger)
unfolding run
run-waiting_example = run-waiting left refl refl

abbrev with_shop : DaemonState MockState
with_shop = record fresh { registrations = ("shop", shop) ∷ [] }

not_runtime : ◌≢◌ {A = String} "entrypoint-shop" "runtime"
not_runtime e = cc (eq→== "entrypoint-shop" "runtime" e)

not_control : ◌≢◌ {A = String} "entrypoint-shop" "runtime-control"
not_control e = cc (eq→== "entrypoint-shop" "runtime-control" e)
