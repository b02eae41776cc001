-- ===== src/Ipc/Execution/Owning.antt =====
-- A connection owns registrations that are the daemon's, each under its session.
use cadder.Base.{
  String, ◌≡◌, refl, ◌∙◌, sym, ap, inl, inr, some, Result, ok, err, ◌==◌, string_eq, Bool-cases,
  arith,
}
use cadder.Base.Dict.{lookup, insert, remove, lookup-insert, lookup-remove}
use cadder.Caddy.Coordinator.{PreparedRegistration}
use cadder.Daemon.{DaemonState, Task, Env}
use cadder.Daemon.Interleaving.{heartbeat_fenced}
use cadder.Daemon.Mutations.{
  register_fenced, unregister_fenced, set_entrypoint_enabled_fenced, set_domain_enabled_fenced,
}
use cadder.Daemon.Mutations.Effects.{
  Unregisters, SetsEntrypoint, SetsDomain, unregister_fenced-IsEndOf,
  set_entrypoint_enabled_fenced-IsEndOf, set_domain_enabled_fenced-IsEndOf,
}
use cadder.Daemon.Mutations.Editing as Editing
use cadder.Daemon.Mutations.Naming.{Names, register_fenced-Names}
use cadder.Daemon.Mutations.Outcome.{IsUnchanged, IsCommitted, IsEndOf}
use cadder.Daemon.Mutations.Register.{Registers, register_fenced-IsEndOf}
use cadder.Daemon.Mutations.Register as Register
use cadder.Daemon.Transaction.{Schedule}
use cadder.Daemon.Transaction.Preserve.{heartbeat_fenced-heartbeats}
use cadder.Fence.{CommitRejection}
use cadder.Ipc.Execution.{
  OwnedMutationRequest, registering, unregistering, beating, setting_entrypoint, setting_domain,
  Execution, after_register, after_unregister, after_basic, execute,
}
use cadder.Ipc.Ownership.{ConnectionOwnershipState, own, disown}
use cadder.Protocol.Messages.{RegisterEntrypointResponse, BasicResponse}
use cadder.Protocol.State.{EntrypointRegistration, nonce}
use cadder.Registrations.{Registrations, with_activation, with_domain}
use cadder.Registrations.Heartbeats.{without-merge}
use cadder.Registrations.Owners.{
  owner_of, owner_of-heartbeats, owner_of-insert, owner_of-remove, owner_of-adjust,
}
use cadder.Runtime.{Runtime, Serving}

-- Each entry of the connection is a registration under the entry's session.
abbrev pub Owns : ConnectionOwnershipState → Registrations → Type 0
Owns s m =
    (id session : String)
    → lookup id s.by_registration_id ≡ some session
    → owner_of id m ≡ some session

abbrev SameOwners : Registrations → Registrations → Type 0
SameOwners m n = (id : String) → owner_of id n ≡ owner_of id m

Owns-same :
    (s : ConnectionOwnershipState) (m n : Registrations) → SameOwners m n → Owns s m → Owns s n
Owns-same s m n same owns id session h = same id ∙ owns id session h

Owns-own :
    (id session : String) (s : ConnectionOwnershipState) (m : Registrations)
    (r : EntrypointRegistration)
    → r.registration_id ≡ id
    → nonce r ≡ session
    → Owns s m
    → Owns (own id session s) (insert r.registration_id r m)
unfolding own
Owns-own id session s m r same_id same_nonce owns k n h =
    let named = lookup-insert id k session s.by_registration_id in
    let owned = owner_of-insert r.registration_id k r m in
    elim (Bool-cases (id == k)) [
      | inl hit ↦ ground (arith, h, hit, named, owned, same_id, same_nonce)
      | inr miss ↦ ground (arith, h, miss, named, owned, same_id, owns k n)
    ]

Owns-disown :
    (id : String) (s : ConnectionOwnershipState) (m : Registrations)
    → Owns s m
    → Owns (disown id s) (remove id m)
unfolding disown
Owns-disown id s m owns k n h =
    ground (arith, h, lookup-remove id k s.by_registration_id, owner_of-remove id k m, owns k n)

module _ {R : Runtime} (V : Serving R) (x : Env) where
  IsUnchanged-SameOwners :
      (Edit : Registrations → Registrations → Type 0) (d d' : DaemonState R.State)
      → IsUnchanged V x Edit d d'
      → SameOwners d.registrations d'.registrations
  IsUnchanged-SameOwners Edit d d' u id =
      owner_of-heartbeats id d.registrations d'.registrations u.0.kept.registrations

  -- The owners after a commit are those after its edit, which was made to the owners before.
  IsCommitted-owners :
      (Edit : Registrations → Registrations → Type 0) (d d' : DaemonState R.State)
      → IsCommitted V x Edit d d'
      → (m n : Registrations) × Edit m n
        × SameOwners d.registrations m
        × SameOwners n d'.registrations
  IsCommitted-owners Edit d d' w =
      let (live, beats, merged) = w.published.registrations in
      let n = w.transaction.registrations in
      (
        w.before.state.registrations,
        n,
        w.edited,
        λ id.
            owner_of-heartbeats id d.registrations w.before.state.registrations
              w.quiet.keeps.registrations,
        λ id.
            ap (λ (z : DaemonState R.State). owner_of id z.registrations) (sym w.ends)
            ∙ ap (owner_of id) merged
            ∙ owner_of-heartbeats id n _ (without-merge n live),
      )

  abbrev OwnsAfter : Execution R → Type 0
  OwnsAfter (s, t, result) = Owns s t.state.registrations

  -- An edit that leaves the owners alone.
  after_basic-Owns :
      (Edit : Registrations → Registrations → Type 0) (request_id : String)
      (s : ConnectionOwnershipState) (d : DaemonState R.State)
      (p : Task R.State × Result BasicResponse CommitRejection)
      → ((m n : Registrations) → Edit m n → SameOwners m n)
      → Owns s d.registrations
      → IsEndOf V x Editing.is_accepted Edit d p
      → OwnsAfter (after_basic R request_id s p)
  unfolding IsEndOf
  after_basic-Owns Edit request_id s d (t, err e) same owns h =
      Owns-same s d.registrations t.state.registrations (IsUnchanged-SameOwners _ d t.state h) owns
  after_basic-Owns Edit request_id s d (t, ok a) same owns (inl (denied, h)) =
      Owns-same s d.registrations t.state.registrations (IsUnchanged-SameOwners _ d t.state h) owns
  after_basic-Owns Edit request_id s d (t, ok a) same owns (inr (granted, w)) =
      let (m, n, edit, before, after) = IsCommitted-owners Edit d t.state w in
      Owns-same s d.registrations t.state.registrations
        (λ id. after id ∙ same m n edit id ∙ before id) owns

  after_unregister-Owns :
      (request_id id session : String) (s : ConnectionOwnershipState) (d : DaemonState R.State)
      (p : Task R.State × Result BasicResponse CommitRejection)
      → Owns s d.registrations
      → IsEndOf V x Editing.is_accepted (Unregisters id session) d p
      → OwnsAfter (after_unregister R request_id id s p)
  unfolding IsEndOf after_unregister
  after_unregister-Owns request_id id session s d (t, err e) owns h =
      Owns-same s d.registrations t.state.registrations (IsUnchanged-SameOwners _ d t.state h) owns
  after_unregister-Owns request_id id session s d (t, ok a) owns (inl (denied, h)) = rw denied (
      Owns-same s d.registrations t.state.registrations (IsUnchanged-SameOwners _ d t.state h) owns)
  after_unregister-Owns request_id id session s d (t, ok a) owns (inr (granted, w)) =
      let (m, n, (r, found, held, removed), before, after) =
        IsCommitted-owners (Unregisters id session) d t.state w in
      rw granted (
        Owns-same (disown id s) (remove id m) t.state.registrations
          (λ k. after k ∙ ap (owner_of k) removed)
          (Owns-disown id s m (Owns-same s d.registrations m before owns)))

  after_register-Owns :
      (request_id : String) (p : PreparedRegistration) (session : String)
      (s : ConnectionOwnershipState) (d : DaemonState R.State)
      (q : Task R.State × Result RegisterEntrypointResponse CommitRejection)
      → nonce p.registration ≡ session
      → Owns s d.registrations
      → IsEndOf V x Register.is_accepted (Registers x.now p) d q
      → Names p.registration.registration_id q
      → OwnsAfter (after_register R request_id session s q)
  unfolding IsEndOf after_register
  after_register-Owns request_id p session s d (t, err e) kept owns h named =
      Owns-same s d.registrations t.state.registrations (IsUnchanged-SameOwners _ d t.state h) owns
  after_register-Owns request_id p session s d (t, ok a) kept owns (inl (denied, h)) named =
      rw denied (
        Owns-same s d.registrations t.state.registrations (IsUnchanged-SameOwners _ d t.state h)
          owns)
  after_register-Owns request_id p session s d (t, ok a) kept owns (inr (granted, w)) named =
      let (m, n, (r, a', each, as_prepared, same_id, same_nonce, alone, inserted), before, after) =
        IsCommitted-owners (Registers x.now p) d t.state w in
      rw (granted, named granted)
        (Owns-same (own p.registration.registration_id session s) (insert r.registration_id r m)
          t.state.registrations (λ k. after k ∙ ap (owner_of k) inserted)
          (Owns-own p.registration.registration_id session s m r same_id (same_nonce ∙ kept)
            (Owns-same s d.registrations m before owns)))

  -- A mutation keeps a connection's entries true: each is a registration of the daemon's under the
  -- session of the entry, after it if before it, whatever happens meanwhile and however it ends. The
  -- adapter keeps the session of a registration that it prepares.
  pub execute-Owns :
      (es : Schedule) (request_id : String) (q : OwnedMutationRequest)
      (s : ConnectionOwnershipState) (t : Task R.State)
      → ((r : EntrypointRegistration) → nonce (x.prepare r).registration ≡ nonce r)
      → Owns s t.state.registrations
      → let (s', t', result) = execute R x es request_id q s t in Owns s' t'.state.registrations
  unfolding execute
  execute-Owns es request_id (registering r) s t keeps owns =
      after_register-Owns request_id (x.prepare r) (nonce r) s t.state (register_fenced R x es r t)
        (keeps r) owns (register_fenced-IsEndOf V x es r t) (register_fenced-Names R x es r t)
  execute-Owns es request_id (unregistering id session) s t keeps owns =
      after_unregister-Owns request_id id session s t.state (unregister_fenced R x es id session t)
        owns (unregister_fenced-IsEndOf V x es id session t)
  execute-Owns es request_id (beating p) s t keeps owns =
      Owns-same s t.state.registrations (heartbeat_fenced p x.now t).0.state.registrations
        (λ id. owner_of-heartbeats id _ _ (heartbeat_fenced-heartbeats p x.now t)) owns
  execute-Owns es request_id (setting_entrypoint p) s t keeps owns =
      after_basic-Owns (SetsEntrypoint p) request_id s t.state
        (set_entrypoint_enabled_fenced R x es p t)
        (λ m n edit id.
          ap (owner_of id) edit.3
          ∙ owner_of-adjust p.registration_id id (with_activation p.enabled) m (λ r. refl))
        owns (set_entrypoint_enabled_fenced-IsEndOf V x es p t)
  execute-Owns es request_id (setting_domain p) s t keeps owns =
      after_basic-Owns (SetsDomain p) request_id s t.state (set_domain_enabled_fenced R x es p t)
        (λ m n edit id.
          ap (owner_of id) edit.3
          ∙ owner_of-adjust p.registration_id id (with_domain p.domain_key p.enabled) m (λ r. refl))
        owns (set_domain_enabled_fenced-IsEndOf V x es p t)
