-- ===== src/Examples/Commands.antt =====
-- Commands that the shim is given.
use cadder.Base.{◌≡◌, refl, ◌↔◌, true, false, none, [], ◌∷◌, ok}
use cadder.Shim.CommandPolicy.{
  CaddyBackendMode, ShimArgs, classify_caddy_command, normalized_caddy_command,
  delegate_to_real_caddy, main, Probe, prints_notice,
}
use cadder.Shim.Delegation.{MayDelegate, main_delegates}

abbrev version : ShimArgs
version = record {
  rejected_real_caddy_selector = none;
  caddy_backend = none;
  caddy_args = "-v" ∷ [];
}

-- `caddy -v` is the inspection `version`.
version_delegates : main version (ok CaddyBackendMode.real) ≡ delegate_to_real_caddy true
unfolding main classify_caddy_command normalized_caddy_command
version_delegates = refl

abbrev no_daemon : Probe
no_daemon = record { paths_resolve = true; connects = false }

main_delegates_example :
    ((main version (ok CaddyBackendMode.real) ≡ delegate_to_real_caddy true)
      ↔ MayDelegate version (ok CaddyBackendMode.real) true)
    × ((main version (ok CaddyBackendMode.real) ≡ delegate_to_real_caddy false)
        ↔ MayDelegate version (ok CaddyBackendMode.real) false)
    × ((prints_notice no_daemon (main version (ok CaddyBackendMode.real)) ≡ true)
        ↔ MayDelegate version (ok CaddyBackendMode.real) true
          × (no_daemon.paths_resolve ≡ true)
          × (no_daemon.connects ≡ false))
main_delegates_example = main_delegates version (ok CaddyBackendMode.real) no_daemon
