-- ===== src/Runtime/Process/Receipts/Settled.antt =====
-- The transactions over a Caddy process, from one settled state to the next.
use cadder.Base.{
  ℕ, String, ◌≡◌, refl, sym, subst, ap, ◌∙◌, inl, inr, Bool, true, false, Option, none, some, List,
  Result, ok, err, arith, if◌then◌else◌,
}
use cadder.LogStore.{CaddyLogStore}
use cadder.Runtime.{LogEnv}
use cadder.Runtime.Process.Files.Laws.{with_file, promote_lem}
use cadder.Runtime.Process.Holding.{Held, held, OnOk}
use cadder.Runtime.Process.Receipts.{
  ProcessRuntimeApplyReceipt, begin_apply_config, accept_apply, rollback_apply,
}
use cadder.Runtime.Process.Receipts.Outcomes.{Tried, IsBegun, begin_apply_config-IsBegun}
use cadder.Runtime.Process.Receipts.Rollback.{IsReturned, IsRolledBack, rollback_apply-IsRolledBack}
use cadder.Runtime.Process.Start.{taking}
use cadder.Runtime.Process.Start.Laws.{IsReloaded}
use cadder.Runtime.Process.World.{OwnedRuntimeProcess, Process}

-- Between transactions Caddy runs with the configuration that the file holds, if it runs.
abbrev pub IsInFile : Option OwnedRuntimeProcess → Option (List ℕ) → Type 0
IsInFile none f = Unit {0}
IsInFile (some c) f = f ≡ some c.config

abbrev pub IsSettled : Process → Type 0
IsSettled m = IsInFile m.runtime.child m.runtime.effective

-- Whatever a reload did, a later one to the same configuration is all that is left of it.
taken_again :
    (rendered p : List ℕ) (c : Option OwnedRuntimeProcess) (m : Process)
    → m.runtime.child ≡ taking rendered c
    → taking p m.runtime.child ≡ taking p c
taken_again rendered p none m e = ap (taking p) e
taken_again rendered p (some c) m e = ap (taking p) e

taking_again :
    (rendered p : List ℕ) (h : Held) (o : Result (Unit {0}) String) (m : Process)
    → IsReloaded rendered h (m, o)
    → taking p m.runtime.child ≡ taking p h.2
taking_again rendered p h (ok u) m taken =
    taken_again rendered p h.2 m (ap (λ (k : Held). k.2) taken)
taking_again rendered p h (err e) m (inl same) = ap (λ (k : Held). taking p k.2) same
taking_again rendered p h (err e) m (inr taken) =
    taken_again rendered p h.2 m (ap (λ (k : Held). k.2) taken)

taking_same : (p : List ℕ) (c : OwnedRuntimeProcess) → p ≡ c.config → taking p (some c) ≡ some c
taking_same p c e = ap (λ q. some (record c { config = q })) e

module _ (l : LogEnv) (rendered : List ℕ) (m m' : Process) (r : ProcessRuntimeApplyReceipt)
    (o : Result (Unit {0}) String) (begun : begin_apply_config l rendered m ≡ (m', ok (r, o)))
    (lines : CaddyLogStore) where
  begun_lem : IsBegun rendered (held m) (r, o) m'
  begun_lem =
      subst (OnOk (IsBegun rendered (held m))) begun (begin_apply_config-IsBegun l rendered m)

  -- A rollback that succeeds, after an apply over a settled state, puts back the file as it was, and the
  -- child as it was, with the configuration that it ran with. If Caddy had exited, there is no child.
  pub apply_undone :
      (m'' : Process)
      → IsSettled m
      → rollback_apply l r (record m' { logs = lines }) ≡ (m'', ok tt)
      → (m''.runtime.effective ≡ m.runtime.effective)
        × (m''.runtime.child ≡ (if r.was_running then m.runtime.child else none))
  apply_undone m'' settled undone = by_running r.was_running begun_lem.2 (
      subst (IsRolledBack (IsReturned r.previous_config r.was_running (held m')) r.previous_config)
        undone (rollback_apply-IsRolledBack l r (record m' { logs = lines })))
    where
      by_running :
          (b : Bool)
          → Tried rendered b (held m) o m'
          → IsReturned r.previous_config b (held m') m''
          → (m''.runtime.effective ≡ m.runtime.effective)
            × (m''.runtime.child ≡ (if b then m.runtime.child else none))
      by_running false tried back =
          (ap (λ (k : Held). k.0) back ∙ begun_lem.1, ap (λ (k : Held). k.2) back)
      by_running true ((c, owned), reloaded) (p, previous, back) =
          let file = sym previous ∙ begun_lem.1 in
          let settled_at : m.runtime.effective ≡ some c.config =
            subst (λ c. IsInFile c m.runtime.effective) owned settled in
          (
            ap (λ (k : Held). k.0) back ∙ file,
            ap (λ (k : Held). k.2) back
                ∙ taking_again rendered p (held m) o m' reloaded
                ∙ ap (taking p) owned
                ∙ taking_same p c (ground (arith, file, settled_at))
                ∙ sym owned,
          )

-- Caddy serves what was asked for, from the file.
pub record IsServing (rendered : List ℕ) (m : Process) : Type 0 where
  pub file : m.runtime.effective ≡ some rendered
  pub child : (c : OwnedRuntimeProcess) × (m.runtime.child ≡ some c) × (c.config ≡ rendered)

accept_apply_lem :
    (r : ProcessRuntimeApplyReceipt) (m : Process)
    → OnOk (λ _ m'. held m' ≡ with_file (some r.staged) (held m)) (accept_apply r m)
unfolding accept_apply
accept_apply_lem r m = promote_lem r.staged m

applied_child :
    (rendered : List ℕ) (b : Bool) (h : Held) (m : Process)
    → Tried rendered b h (ok tt) m
    → (c : OwnedRuntimeProcess) × (m.runtime.child ≡ some c) × (c.config ≡ rendered)
applied_child rendered true h m ((c, owned), taken) = (
  record c { config = rendered },
  ap (λ (k : Held). k.2) taken ∙ ap (taking rendered) owned,
  refl,
)
applied_child rendered false h m (process_id, fresh) = (
  record { binary = h.1.path; process_id = process_id; config = rendered },
  ap (λ (k : Held). k.2) fresh,
  refl,
)

module _ (l : LogEnv) (rendered : List ℕ) (m m' m'' : Process) (r : ProcessRuntimeApplyReceipt)
    (lines : CaddyLogStore) where
  -- An apply that succeeds and is accepted, over any state, leaves Caddy running with the new
  -- configuration, and that in the file.
  pub apply_accepted :
      begin_apply_config l rendered m ≡ (m', ok (r, ok tt))
      → accept_apply r (record m' { logs = lines }) ≡ (m'', ok tt)
      → IsServing rendered m''
  apply_accepted begun accepted =
      let (bytes, previous, tried) = begun_lem l rendered m m' r (ok tt) begun lines in
      let promoted : held m'' ≡ with_file (some r.staged) (held m') =
        subst (OnOk (λ _ n. held n ≡ with_file (some r.staged) (held m'))) accepted
          (accept_apply_lem r (record m' { logs = lines })) in
      let (c, owned, same) = applied_child rendered r.was_running (held m) m' tried in
      record {
        file = ap (λ (k : Held). k.0) promoted ∙ ap some bytes;
        child = (c, ap (λ (k : Held). k.2) promoted ∙ owned, same);
      }
