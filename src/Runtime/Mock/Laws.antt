-- ===== src/Runtime/Mock/Laws.antt =====
-- The mock runtime keeps the promises of the runtime interface.
use cadder.Base.{ℕ, ◌≡◌, refl, Option, none, List, arith, if◌then◌else◌}
use cadder.Runtime.{Runtime, Serving}
use cadder.Runtime.Mock.{
  MockState, MockRuntimeApplyReceipt, MockRuntimeStopReceipt, begin_apply_config, accept_apply,
  rollback_apply, begin_stop, accept_stop, rollback_stop,
}

abbrev pub mock_runtime : Runtime
mock_runtime = record {
  State = MockState;
  ApplyReceipt = MockRuntimeApplyReceipt;
  StopReceipt = MockRuntimeStopReceipt;
  begin_apply_config = begin_apply_config;
  accept_apply = accept_apply;
  rollback_apply = rollback_apply;
  begin_stop = begin_stop;
  accept_stop = accept_stop;
  rollback_stop = rollback_stop;
}

abbrev pub mock_serving : MockState → Option (List ℕ)
mock_serving s = if s.running then s.effective else none

-- What the mock runtime serves is the configuration of its file while it runs, and nothing else. Its
-- operations change that as the interface promises, whatever file operations fail, before or after
-- they change the file.
pub mock_runtime-Serves : (V : Serving mock_runtime) × (V.serving ≡ mock_serving)
unfolding begin_apply_config begin_stop accept_apply accept_stop rollback_apply rollback_stop
mock_runtime-Serves = (
  record {
    serving = mock_serving;
    apply_refused = λ l c m m' e h. ground (arith, h);
    apply_accepted = λ l c m m' m'' r lines h k. ground (arith, h, k);
    apply_undone = λ l c m m' m'' r o lines h k. ground (arith, h, k);
    apply_undone_later = λ l c m m' m'' r o before lines h k. ground (arith, h, k);
    stop_refused = λ l m m' e h. ground (arith, h);
    stop_accepted = λ l m m' m'' r lines h k. ground (arith, h, k);
    stop_undone = λ l m m' m'' r o lines h k. ground (arith, h, k);
    stop_undone_later = λ l m m' m'' r o before lines h k. ground (arith, h, k);
  },
  refl,
)

pub mock-Serving : Serving mock_runtime
mock-Serving = mock_runtime-Serves.0
