-- ===== src/Examples/Executions.antt =====
-- Requests on their way to the daemon, and a registration that its connection owns.
use cadder.Base.{◌≡◌, refl, false, [], ◌∷◌}
use cadder.Base.Dict.{lookup}
use cadder.Examples.{env, calm, shop, fresh}
use cadder.Examples.Fences.{fence}
use cadder.Examples.Peers.{query}
use cadder.Fence.{issue, initial_epoch}
use cadder.Ipc.Execution.{registering, Execution, execute}
use cadder.Ipc.Execution.Owning.{Owns, execute-Owns}
use cadder.Ipc.Ownership.{default_ownership}
use cadder.Ipc.Supervision.Unary.{route, to_worker}
use cadder.Ipc.Supervision.Unary.Routing.{IsRouted, route-IsRouted}
use cadder.Ipc.Supervision.{operation_uses_fence, owned_mutation_uses_worker}
use cadder.Protocol.Operations.{
  OperationAccess, OperationDeadlineClass, RawRequestEnvelope, AuthorizedRequestEnvelope,
  register_entrypoint_request, authorize_envelope,
}
use cadder.Runtime.Mock.{begin_apply_config, accept_apply}
use cadder.Runtime.Mock.Laws.{mock_runtime, mock-Serving}

abbrev registering_shop : Execution mock_runtime
registering_shop =
    execute mock_runtime env calm "request-1" (registering shop) default_ownership
      (record { state = fresh; fence = fence })

shop_owned : registering_shop.0.by_registration_id ≡ ("shop", "one") ∷ []
unfolding execute begin_apply_config accept_apply
shop_owned = refl

nothing_owned : Owns default_ownership []
unfolding lookup
nothing_owned id session h = cc h

execute-Owns_example : Owns registering_shop.0 registering_shop.1.state.registrations
execute-Owns_example =
    execute-Owns mock-Serving env calm "request-1" (registering shop) default_ownership
      (record { state = fresh; fence = fence }) (λ r. refl) nothing_owned

abbrev register_shop : RawRequestEnvelope
register_shop = record query { operation = register_entrypoint_request }

abbrev authorized : AuthorizedRequestEnvelope
authorized = record {
  definition = record {
    name = register_entrypoint_request;
    access = OperationAccess.mutation;
    deadline = OperationDeadlineClass.reload;
    timeout_retryable = false;
  };
  envelope = register_shop;
}

worked : route initial_epoch authorized ≡ to_worker fence
unfolding route operation_uses_fence owned_mutation_uses_worker issue
worked = refl

route-IsRouted_example : IsRouted initial_epoch authorized (route initial_epoch authorized)
unfolding authorize_envelope
route-IsRouted_example = route-IsRouted initial_epoch register_shop authorized refl
