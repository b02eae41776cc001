-- ===== src/Ipc/Supervision/Unary/Routing.antt =====
-- Where an authorized request goes.
use cadder.Base.{
  ◌≡◌, refl, ◌∙◌, subst, Bool, true, false, Option, none, some, List, [], ◌∷◌, Result, ok, err,
  find, All, ◌==◌, string_eq, if-elim, Bool-cases, inl, inr, arith,
}
use cadder.Fence.{CommitRejection, LifecycleEpoch, OperationFence, issue, is_draining}
use cadder.Ipc.Supervision.{owned_mutation_uses_worker, operation_uses_fence}
use cadder.Ipc.Supervision.Unary.{
  Route, told_shutdown, failed, to_worker, panics, to_handler, issued, route,
}
use cadder.Protocol.Operations.{
  OperationDefinition, operations, lookup_operation, RawRequestEnvelope, AuthorizedRequestEnvelope,
  authorized_by, authorize_envelope,
}

-- An operation needs a fence exactly if a worker runs it.
abbrev IsRoutable : OperationDefinition → Type 0
IsRoutable d = operation_uses_fence d ≡ owned_mutation_uses_worker d.name

operations-IsRoutable : All IsRoutable operations
unfolding operation_uses_fence owned_mutation_uses_worker
operations-IsRoutable = (refl, (refl, (refl, (refl, (refl, (refl, (refl, (refl, tt))))))))

find-All :
    {A : Type 0} (P : A → Type 0) (p : A → Bool) (xs : List A) (a : A)
    → All P xs
    → find p xs ≡ some a
    → P a
find-All P p [] a h e = cc e
find-All P p (x ∷ xs) a h e = elim (Bool-cases (p x)) [
  | inl hit ↦ let same : x ≡ a = ground (arith, e, hit) in subst P same h.0
  | inr miss ↦ find-All P p xs a h.1 (ground (arith, e, miss))
]

authorized-IsRoutable :
    (e : RawRequestEnvelope) (a : AuthorizedRequestEnvelope)
    → authorize_envelope e ≡ ok a
    → IsRoutable a.definition
unfolding authorize_envelope authorized_by lookup_operation
authorized-IsRoutable e a h = by_lookup (lookup_operation e.operation) refl found
  where
    found : authorized_by e (lookup_operation e.operation) ≡ ok a
    found = ground (arith, h)

    by_lookup :
        (o : Option OperationDefinition)
        → lookup_operation e.operation ≡ o
        → authorized_by e o ≡ ok a
        → IsRoutable a.definition
    by_lookup none same found = cc found
    by_lookup (some d) same found =
        let defined : d ≡ a.definition = cc found in
        subst IsRoutable defined (
          find-All IsRoutable (λ operation. operation.name == e.operation) operations d
            operations-IsRoutable same)

-- A request whose operation is a mutation of the registrations gets a fence, and a worker; if the
-- daemon drains it has none, and the client is told so. Any other is handled without a fence.
abbrev pub IsRouted : LifecycleEpoch → AuthorizedRequestEnvelope → Route → Type 0
IsRouted l a told_shutdown =
    (issue l ≡ err CommitRejection.draining) × (owned_mutation_uses_worker a.definition.name ≡ true)
IsRouted l a (failed e) = ⊥
IsRouted l a (to_worker f) =
    (issue l ≡ ok f) × (owned_mutation_uses_worker a.definition.name ≡ true)
IsRouted l a panics = ⊥
IsRouted l a (to_handler f) = (f ≡ none) × (owned_mutation_uses_worker a.definition.name ≡ false)

-- The issue of a fence is refused by a drain alone.
abbrev IsIssued : Result OperationFence CommitRejection → Type 0
IsIssued (ok f) = Unit {0}
IsIssued (err e) = e ≡ CommitRejection.draining

issue-IsIssued : (l : LifecycleEpoch) → IsIssued (issue l)
unfolding issue
issue-IsIssued l = if-elim IsIssued (is_draining l.phase) (λ _. refl) (λ _. tt)

issued-IsRouted :
    (l : LifecycleEpoch) (a : AuthorizedRequestEnvelope) (o : Result OperationFence CommitRejection)
    → issue l ≡ o
    → owned_mutation_uses_worker a.definition.name ≡ true
    → IsIssued o
    → IsRouted l a (issued a o)
issued-IsRouted l a (ok f) same uses i = rw uses (same, uses)
issued-IsRouted l a (err CommitRejection.draining) same uses i = (same, uses)
issued-IsRouted l a (err CommitRejection.revoked) same uses i = cc i
issued-IsRouted l a (err CommitRejection.stale_epoch) same uses i = cc i

-- Every request that the registry authorizes goes where its operation wants: a mutation of the
-- registrations to a worker, with the fence that the daemon issues, or, if the daemon drains, to a client
-- that is told so; any other to a handler, which never has a fence. The supervisor never panics for
-- want of a fence, and never fails for another rejection.
pub route-IsRouted :
    (l : LifecycleEpoch) (e : RawRequestEnvelope) (a : AuthorizedRequestEnvelope)
    → authorize_envelope e ≡ ok a
    → IsRouted l a (route l a)
unfolding route
route-IsRouted l e a h = elim (Bool-cases (owned_mutation_uses_worker a.definition.name)) [
  | inl uses ↦
      rw (authorized-IsRoutable e a h ∙ uses)
        (issued-IsRouted l a (issue l) refl uses (issue-IsIssued l))
  | inr unused ↦ rw (authorized-IsRoutable e a h ∙ unused, unused) (refl, unused)
]
