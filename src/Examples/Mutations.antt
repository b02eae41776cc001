-- ===== src/Examples/Mutations.antt =====
-- The mutations of a daemon over the mock runtime.
use cadder.Base.{String, ◌≡◌, refl, true, false, none, some, List, [], ◌∷◌}
use cadder.Base.Dict.{lookup}
use cadder.Daemon.{DaemonState, new_state}
use cadder.Daemon.Histories.{registers, touches, Turn, replay, replay_exclusive}
use cadder.Daemon.Interleaving.{beats}
use cadder.Daemon.Mutations.{register, unregister, set_entrypoint_enabled, set_domain_enabled}
use cadder.Daemon.Mutations.Effects.{
  Unregisters, SetsEntrypoint, unregister_effect, set_entrypoint_enabled_effect,
}
use cadder.Daemon.Mutations.Outcome.{IsOutcome}
use cadder.Daemon.Mutations.Register.{Registers, register_effect}
use cadder.Daemon.Transaction.{Schedule}
use cadder.Examples.{env, calm, prepared, shop, rival, idle_machine, fresh}
use cadder.LogStore.{default_store}
use cadder.Protocol.Messages.{
  HeartbeatEntrypointPayload, SetEntrypointEnabledPayload, SetDomainEnabledPayload,
}
use cadder.Protocol.State.{EntrypointRegistration, is_enabled}
use cadder.Registrations.{set_domain}
use cadder.Registrations.Conflicts.{serves}
use cadder.Runtime.Mock.{MockState, begin_apply_config, accept_apply, begin_stop, accept_stop}
use cadder.Runtime.Mock.Laws.{mock_runtime, mock-Serving}

abbrev beat : HeartbeatEntrypointPayload
beat = record { registration_id = "shop"; shim_session_nonce = "one" }

-- Heartbeats arrive while Caddy works.
abbrev busy : Schedule
busy = record calm { applying = beats beat 40 ∷ [] }

abbrev turns : List Turn
turns =
    record { mutation = registers shop; env = env; schedule = calm }
    ∷ record { mutation = registers rival; env = env; schedule = busy }
    ∷ record { mutation = touches beat 50; env = env; schedule = calm }
    ∷ []

-- The shop as it is after these turns: the rival was refused.
abbrev kept_shop : EntrypointRegistration
kept_shop = record shop { created_at_utc = 11; last_heartbeat_utc = 50 }

kept : lookup "shop" (replay mock_runtime turns fresh).registrations ≡ some kept_shop
unfolding replay lookup begin_apply_config accept_apply
kept = refl

refused_rival : lookup "rival" (replay mock_runtime turns fresh).registrations ≡ none
unfolding replay lookup begin_apply_config accept_apply
refused_rival = refl

abbrev shop_id : String
shop_id = "shop"

replay_exclusive_example : shop_id ≡ "shop"
unfolding serves new_state is_enabled
replay_exclusive_example =
    replay_exclusive mock-Serving turns idle_machine none default_store "shop.localhost" "shop"
      "shop" kept_shop kept_shop kept kept refl refl

abbrev with_shop : DaemonState MockState
with_shop = (register mock_runtime env calm shop fresh).0

register_accepted : (register mock_runtime env calm shop fresh).1.accepted ≡ true
unfolding register begin_apply_config accept_apply
register_accepted = refl

register_effect_example :
    IsOutcome mock-Serving env
      (Registers env.now (prepared shop))
      (register mock_runtime env calm shop fresh).1.accepted
      fresh
      (register mock_runtime env calm shop fresh).0
register_effect_example = register_effect mock-Serving env calm shop fresh

unregister_accepted : (unregister mock_runtime env busy "shop" "one" with_shop).1.accepted ≡ true
unfolding register unregister begin_apply_config accept_apply begin_stop accept_stop
unregister_accepted = refl

unregister_effect_example :
    IsOutcome mock-Serving env
      (Unregisters "shop" "one")
      (unregister mock_runtime env busy "shop" "one" with_shop).1.accepted
      with_shop
      (unregister mock_runtime env busy "shop" "one" with_shop).0
unregister_effect_example = unregister_effect mock-Serving env busy "shop" "one" with_shop

abbrev pause : SetEntrypointEnabledPayload
pause = record { registration_id = "shop"; shim_session_nonce = none; enabled = false }

set_entrypoint_enabled_accepted :
    (set_entrypoint_enabled mock_runtime env busy pause with_shop).1.accepted ≡ true
unfolding register set_entrypoint_enabled begin_apply_config accept_apply begin_stop accept_stop
set_entrypoint_enabled_accepted = refl

set_entrypoint_enabled_effect_example :
    IsOutcome mock-Serving env
      (SetsEntrypoint pause)
      (set_entrypoint_enabled mock_runtime env busy pause with_shop).1.accepted
      with_shop
      (set_entrypoint_enabled mock_runtime env busy pause with_shop).0
set_entrypoint_enabled_effect_example =
    set_entrypoint_enabled_effect mock-Serving env busy pause with_shop

abbrev hide : SetDomainEnabledPayload
hide = record { registration_id = "shop"; domain_key = "SHOP.localhost"; enabled = false }

set_domain_enabled_accepted :
    (set_domain_enabled mock_runtime env busy hide with_shop).1.accepted ≡ true
unfolding register set_domain_enabled begin_apply_config accept_apply begin_stop accept_stop
    set_domain
set_domain_enabled_accepted = refl
