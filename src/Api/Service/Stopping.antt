-- ===== src/Api/Service/Stopping.antt =====
-- When a restart goes on.
use cadder.Api.Error.{OperatorError, daemon_request}
use cadder.Api.Service.{indicates_stop, wait_rounds, wait_for_daemon_stop}
use cadder.Base.{
  ℕ, zero, suc, ◌+◌, ◌≤◌, String, ◌≡◌, refl, sym, subst, Bool-cases, inl, inr, true, not,
  if◌then◌else◌, Result, ok, err, ◌==◌, nat_eq, nat_test_iff, arith,
}
use cadder.Ipc.ClientError.{IpcClientError}

module _ {A : Type 0} (answers : ℕ → Result A IpcClientError) where
  -- An attempt failed with an error after which the old daemon may be gone.
  abbrev pub IsSign : Result A IpcClientError → Type 0
  IsSign (ok a) = ⊥
  IsSign (err e) = indicates_stop e ≡ true

  -- The last `c` attempts before attempt `k` are such signs.
  abbrev pub Recent : ℕ → ℕ → Type 0
  Recent zero k = Unit {0}
  Recent (suc c) zero = ⊥
  Recent (suc c) (suc k) = IsSign (answers k) × Recent c k

  wait_rounds-Recent :
      (command paths : String) (n k confirmed : ℕ)
      → Recent confirmed k
      → wait_rounds command paths answers n k confirmed ≡ ok tt
      → (m : ℕ) × (m ≤ k + n) × Recent 3 m
  unfolding wait_rounds
  wait_rounds-Recent command paths zero k confirmed recent h = absurd (cc h)
  wait_rounds-Recent command paths (suc n) k confirmed recent h =
      by_answer (λ c seen done. wait_rounds-Recent command paths n (suc k) c seen done) (answers k)
        refl h
    where
      later : (m : ℕ) × (m ≤ suc k + n) × Recent 3 m → (m : ℕ) × (m ≤ k + suc n) × Recent 3 m
      later (m, bound, seen) = (m, omega (arith, bound), seen)

      after : Result A IpcClientError → Result (Unit {0}) OperatorError
      after answer = elim answer [
        | ok _ ↦ wait_rounds command paths answers n (suc k) zero
        | err error ↦
            if not (indicates_stop error)
            then err (daemon_request command paths "wait for the daemon to stop" error)
            else if suc confirmed == 3
            then ok tt
            else wait_rounds command paths answers n (suc k) (suc confirmed)
      ]

      by_answer :
          ((c : ℕ)
            → Recent c (suc k)
            → wait_rounds command paths answers n (suc k) c ≡ ok tt
            → (m : ℕ) × (m ≤ suc k + n) × Recent 3 m)
          → (r : Result A IpcClientError) → answers k ≡ r
          → after r ≡ ok tt
          → (m : ℕ) × (m ≤ k + suc n) × Recent 3 m
      by_answer rest (ok a) is done = later (rest zero tt done)
      by_answer rest (err e) is done = elim (Bool-cases (indicates_stop e)) [
        | inr other ↦ absurd (ground (arith, done, other))
        | inl sign ↦
            let signed : IsSign (answers k) = subst IsSign (sym is) sign in
            elim (Bool-cases (suc confirmed == 3)) [
              | inl third ↦ (
                suc k,
                omega arith,
                subst (λ c. Recent c (suc k)) ((nat_test_iff (suc confirmed) 3).0 third)
                    (signed, recent),
              )
              | inr fewer ↦
                  later (rest (suc confirmed) (signed, recent) (ground (arith, done, sign, fewer)))
            ]
      ]

  -- A restart goes on only after three attempts in a row, among the first hundred, failed with errors
  -- after which the old daemon may be gone.
  pub wait_for_daemon_stop-Recent :
      (command paths : String)
      → wait_for_daemon_stop command paths answers ≡ ok tt
      → (m : ℕ) × (m ≤ 100) × Recent 3 m
  unfolding wait_for_daemon_stop
  wait_for_daemon_stop-Recent command paths h = wait_rounds-Recent command paths 100 0 0 tt h
