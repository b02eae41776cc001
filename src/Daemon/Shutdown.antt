-- ===== src/Daemon/Shutdown.antt =====
-- `ShutdownSignal` of crates/cadder-daemon/src/state.rs, and the drain of state/lifecycle.rs.
use cadder.Base.{ℕ, true, Option, none, some}
use cadder.Daemon.{ShutdownSignal, DaemonState}
use cadder.Fence.{begin_drain}

abbrev set_once : ℕ → Option ℕ → Option ℕ
set_once now none = some now
set_once now (some t) = some t

-- `OnceLock::set`: a later instant is dropped.
unfoldable pub prepare_signal : ℕ → ShutdownSignal → ShutdownSignal
prepare_signal now s = record s { started_at = set_once now s.started_at }

unfoldable pub request_signal : ℕ → ShutdownSignal → ShutdownSignal
unfolding prepare_signal
request_signal now s = record (prepare_signal now s) { requested = true }

module _ {S : Type 0} where
  unfoldable pub request_shutdown : ℕ → DaemonState S → DaemonState S
  unfolding request_signal
  request_shutdown now d = record d { shutdown = request_signal now d.shutdown }

  unfoldable pub begin_operation_drain : DaemonState S → DaemonState S
  unfolding begin_drain
  begin_operation_drain d = record d { lifecycle = (begin_drain d.lifecycle).0 }
