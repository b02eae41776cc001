-- ===== src/Shim/Delegation.antt =====
-- When the shim runs the real Caddy: crates/cadder-shim/src/command_policy.rs and main.rs.
use cadder.Base.{
  String, ◌≡◌, refl, sym, subst, ap, ◌↔◌, ◌∙◌, inl, inr, Bool, true, false, Option, none, some,
  Result, ok, err, List, [], ◌∷◌, any, find, All, string_eq, ◌==◌, ==→eq, if◌then◌else◌, Bool-cases,
  arith,
}
use cadder.Shim.CommandPolicy.{
  ShimCommandPolicyKind, managed, read_only_inspection, explicit_passthrough, unsupported,
  ShimCommandPolicyEntry, ClassifiedShimCommand, shim_command_policy_table,
  normalized_caddy_command, classified_by, classify_caddy_command, CaddyBackendMode, real, mock,
  ShimArgs, shim_info, delegate_to_real_caddy, Outcome, Probe, prints_notice,
  write_read_only_real_caddy_inspection_notice, rejected_selector, invalid_backend, run_managed,
  reject_unsupported_caddy_command, run_mock_caddy_command, chosen_backend, by_policy, on_backend,
  on_selector, main,
}
use mathlib.Core.List.{Memᴰ}

entry_named : String → Option ShimCommandPolicyEntry
entry_named command = find (λ entry. entry.command == command) shim_command_policy_table

-- What an entry of the table gives for its own command: itself.
table-All :
    All
      (λ e. find (λ f. f.command == e.command) shim_command_policy_table ≡ some e)
      shim_command_policy_table
table-All = ground arith

All-mem {ℓ κ} : {A : Type ℓ} (P : A → Type κ) {x : A} (xs : List A) → Memᴰ x xs → All P xs → P x
All-mem P (y ∷ ys) (Memᴰ.head e) h = subst P (sym e) h.0
All-mem P (y ∷ ys) (Memᴰ.tail m) h = All-mem P ys m h.1
All-mem P [] m h = elim m [ ]

find-some {ℓ} :
    {A : Type ℓ} (p : A → Bool) (xs : List A) (x : A)
    → find p xs ≡ some x
    → Memᴰ x xs × (p x ≡ true)
find-some p [] x h = absurd (cc h)
find-some p (y ∷ ys) x h = elim (Bool-cases (p y)) [
  | inl hit ↦ (Memᴰ.head (ground (arith, h, hit)), ground (arith, h, hit))
  | inr miss ↦ let (m, e) = find-some p ys x (ground (arith, h, miss)) in (Memᴰ.tail m, e)
]

-- Only what is inspected is announced.
abbrev IsAllowed : Bool → ShimCommandPolicyKind → Type 0
IsAllowed noticed k = k ≡ (if noticed then read_only_inspection else explicit_passthrough)

by_policy_iff :
    (b : CaddyBackendMode) (c : ClassifiedShimCommand) (k : ShimCommandPolicyKind) (noticed : Bool)
    → (by_policy b c k ≡ delegate_to_real_caddy noticed) ↔ (b ≡ real) × IsAllowed noticed k
by_policy_iff b c k noticed =
    (λ h. by_delegation b k h, λ (same, allowed). rw (same, allowed) (by_kind noticed))
  where
    by_delegation :
        (b : CaddyBackendMode) (k : ShimCommandPolicyKind)
        → by_policy b c k ≡ delegate_to_real_caddy noticed
        → (b ≡ real) × IsAllowed noticed k
    by_delegation b managed h = absurd (cc h)
    by_delegation b unsupported h = absurd (cc h)
    by_delegation mock read_only_inspection h = absurd (cc h)
    by_delegation mock explicit_passthrough h = absurd (cc h)
    by_delegation real read_only_inspection h = (refl, ground (arith, h))
    by_delegation real explicit_passthrough h = (refl, ground (arith, h))

    by_kind :
        (n : Bool)
        → by_policy real c (if n then read_only_inspection else explicit_passthrough)
          ≡ delegate_to_real_caddy n
    by_kind true = refl
    by_kind false = refl

classified_kind :
    (command : String) (o : Option ShimCommandPolicyEntry) (noticed : Bool)
    → IsAllowed noticed (classified_by command o).kind
    → (e : ShimCommandPolicyEntry) × (o ≡ some e) × IsAllowed noticed e.kind
classified_kind command (some e) noticed h = (e, refl, h)
classified_kind command none true h = absurd (cc h)
classified_kind command none false h = absurd (cc h)

-- The table has an entry of that kind for the command.
abbrev pub IsNamed : Bool → List String → Type 0
IsNamed noticed args =
    (e : ShimCommandPolicyEntry) × Memᴰ e shim_command_policy_table
    × (e.command ≡ normalized_caddy_command args)
    × IsAllowed noticed e.kind

-- The conditions under which the shim runs the real Caddy.
pub record MayDelegate (a : ShimArgs) (env : Result CaddyBackendMode String) (noticed : Bool)
    : Type 0 where
  pub no_info : any (λ arg. arg == "--cadder-shim-info") a.caddy_args ≡ false
  pub no_selector : a.rejected_real_caddy_selector ≡ none
  pub on_real : chosen_backend a.caddy_backend env ≡ ok real
  pub named : IsNamed noticed a.caddy_args

classify_iff :
    (args : List String) (noticed : Bool)
    → IsAllowed noticed (classify_caddy_command args).kind ↔ IsNamed noticed args
unfolding classify_caddy_command entry_named
classify_iff args noticed = (
  λ h.
      let (e, found, allowed) =
        classified_kind (normalized_caddy_command args)
          (entry_named (normalized_caddy_command args)) noticed h in
      let (m, same) =
        find-some (λ f. f.command == normalized_caddy_command args) shim_command_policy_table e
          found in
      (e, m, ==→eq e.command (normalized_caddy_command args) same, allowed),
  λ (e, m, same, allowed).
      subst
        (λ c.
          IsAllowed noticed
            (classified_by c (find (λ f. f.command == c) shim_command_policy_table)).kind)
        same
        (subst (λ o. IsAllowed noticed (classified_by e.command o).kind)
          (sym (
            All-mem (λ e. find (λ f. f.command == e.command) shim_command_policy_table ≡ some e)
              shim_command_policy_table m table-All))
          allowed),
)

by_classification :
    (args : List String) (o : Result CaddyBackendMode String) (noticed : Bool)
    → (on_backend args o ≡ delegate_to_real_caddy noticed) ↔ (o ≡ ok real) × IsNamed noticed args
unfolding on_backend
by_classification args (err e) noticed = (λ h. absurd (cc h), λ h. absurd (cc h.0))
by_classification args (ok b) noticed =
    let c = classify_caddy_command args in
    (
      λ h.
          let (same, allowed) = (by_policy_iff b c c.kind noticed).0 h in
          (ap ok same, (classify_iff args noticed).0 allowed),
      λ (same, n).
          (by_policy_iff b c c.kind noticed).1
            (ground (arith, same), (classify_iff args noticed).1 n),
    )

main_delegates_iff :
    (a : ShimArgs) (env : Result CaddyBackendMode String) (noticed : Bool)
    → (main a env ≡ delegate_to_real_caddy noticed) ↔ MayDelegate a env noticed
unfolding main on_selector
main_delegates_iff a env noticed =
    let on_real = by_classification a.caddy_args (chosen_backend a.caddy_backend env) noticed in
    (
      λ h.
          let (own, selector, backend) =
            by_arguments (any (λ arg. arg == "--cadder-shim-info") a.caddy_args)
              a.rejected_real_caddy_selector h in
          let (same, n) = on_real.0 backend in
          record { no_info = own; no_selector = selector; on_real = same; named = n },
      λ m. ground (arith, m.no_info, m.no_selector, on_real.1 (m.on_real, m.named)),
    )
  where
    by_arguments :
        (t : Bool) (s : Option String)
        → (if t then shim_info else on_selector a env s) ≡ delegate_to_real_caddy noticed
        → (t ≡ false)
          × (s ≡ none)
          × (on_backend a.caddy_args (chosen_backend a.caddy_backend env)
              ≡ delegate_to_real_caddy noticed)
    by_arguments true s h = absurd (cc h)
    by_arguments false (some x) h = absurd (cc h)
    by_arguments false none h = (refl, refl, h)

prints_notice-delegates :
    (p : Probe) (o : Outcome)
    → prints_notice p o ≡ true
    → (o ≡ delegate_to_real_caddy true) × (p.paths_resolve ≡ true) × (p.connects ≡ false)
unfolding write_read_only_real_caddy_inspection_notice
prints_notice-delegates p (delegate_to_real_caddy true) h =
    (refl, ground (arith, h), ground (arith, h))
prints_notice-delegates p (delegate_to_real_caddy false) h = absurd (cc h)
prints_notice-delegates p shim_info h = absurd (cc h)
prints_notice-delegates p rejected_selector h = absurd (cc h)
prints_notice-delegates p (invalid_backend e) h = absurd (cc h)
prints_notice-delegates p run_managed h = absurd (cc h)
prints_notice-delegates p (reject_unsupported_caddy_command c) h = absurd (cc h)
prints_notice-delegates p run_mock_caddy_command h = absurd (cc h)

-- The shim hands its command to the real Caddy, with or without the step for the notice, exactly if
-- it was not asked about itself, no executable was selected by an argument, the backend is the real
-- one, and the policy table has an entry for the command that allows it. The notice's step comes first
-- exactly if that entry is a read-only inspection, and then the notice is printed exactly if the
-- runtime's paths resolve and no session connects.
pub main_delegates :
    (a : ShimArgs) (env : Result CaddyBackendMode String) (p : Probe)
    → ((main a env ≡ delegate_to_real_caddy true) ↔ MayDelegate a env true)
      × ((main a env ≡ delegate_to_real_caddy false) ↔ MayDelegate a env false)
      × ((prints_notice p (main a env) ≡ true)
          ↔ MayDelegate a env true × (p.paths_resolve ≡ true) × (p.connects ≡ false))
unfolding write_read_only_real_caddy_inspection_notice
main_delegates a env p = (
  main_delegates_iff a env true,
  main_delegates_iff a env false,
  (
    λ h.
        let (same, paths, alone) = prints_notice-delegates p (main a env) h in
        ((main_delegates_iff a env true).0 same, paths, alone),
    λ (may, paths, alone).
        ap (prints_notice p) ((main_delegates_iff a env true).1 may) ∙ ground (arith, paths, alone),
  ),
)
