-- ===== src/Runtime/Process/Holding.antt =====
-- What the process runtime holds before and after a call.
use cadder.Base.{ℕ, String, ◌≡◌, refl, subst, Option, none, List, Result, ok, err}
use cadder.Runtime.Process.World.{
  OwnedRuntimeProcess, PinnedImage, Process, Call, ◌>>=◌, answer, answered, completed, call,
}

-- What the runtime holds besides its logs: the file, the pinned image and the child.
abbrev pub Held : Type 0
Held = Option (List ℕ) × PinnedImage × Option OwnedRuntimeProcess

abbrev pub held : Process → Held
held m = (m.runtime.effective, m.runtime.image, m.runtime.child)

-- The file and the image are as they were, and so is the child, or it is gone.
abbrev pub IsKept : Held → Process → Type 0
IsKept h m = held m ≡ h

abbrev pub IsGone : Held → Process → Type 0
IsGone h m = held m ≡ (h.0, h.1, none)

-- A call that is answered, and what it leaves alone.
abbrev pub Keeps : {A : Type 0} → Call A → Type 0
Keeps c = (m : Process) → IsKept (held m) (c m).0

-- What holds after a call that succeeds.
abbrev pub OnOk : {A : Type 0} → (A → Process → Type 0) → Process × Result A String → Type 0
OnOk P (m, ok a) = P a m
OnOk P (m, err e) = Unit {0}

module _ {A B : Type 0} (P : A → Process → Type 0) (Q : B → Process → Type 0) where
  pub OnOk-bind :
      (c : Call A) (f : A → Call B) (m : Process)
      → OnOk P (c m)
      → ((a : A) (m' : Process) → P a m' → OnOk Q (f a m'))
      → OnOk Q ((c >>= f) m)
  OnOk-bind c f m h step = by_result (c m) h
    where
      by_result :
          (p : Process × Result A String)
          → OnOk P p
          → OnOk Q (elim p.1 [ ok a ↦ f a p.0 | err e ↦ (p.0, err e) ])
      by_result (m', ok a) h = step a m' h
      by_result (m', err e) h = tt

module _ {A : Type 0} (P Q : A → Process → Type 0) where
  pub OnOk-weaken :
      (p : Process × Result A String)
      → ((a : A) (m : Process) → P a m → Q a m)
      → OnOk P p
      → OnOk Q p
  OnOk-weaken (m, ok a) f h = f a m h
  OnOk-weaken (m, err e) f h = tt

-- The steps that keep what is held, up to one that does not.
pub OnOk-then :
    {A B : Type 0} (Q : Held → B → Process → Type 0) (c : Call A) (f : A → Call B) (m : Process)
    → OnOk (λ _ m'. IsKept (held m) m') (c m)
    → ((a : A) (m' : Process) → OnOk (Q (held m')) (f a m'))
    → OnOk (Q (held m)) ((c >>= f) m)
OnOk-then Q c f m kept step =
    OnOk-bind (λ _ m'. IsKept (held m) m') (Q (held m)) c f m kept
      (λ a m' same. subst (λ h. OnOk (Q h) (f a m')) same (step a m'))

pub call-IsKept : (m : Process) → OnOk (λ _ m'. IsKept (held m) m') (call m)
call-IsKept m = by_answer (completed (answer m))
  where
    by_answer : (r : Result (Unit {0}) String) → OnOk (λ _ m'. IsKept (held m) m') (answered m, r)
    by_answer (ok u) = refl
    by_answer (err e) = tt

-- What holds after a call that fails.
abbrev pub OnErr : {A : Type 0} → (Process → Type 0) → Process × Result A String → Type 0
OnErr E (m, ok a) = Unit {0}
OnErr E (m, err e) = E m

pub OnErr-bind :
    {A B : Type 0} (P : A → Process → Type 0) (E : Process → Type 0) (c : Call A) (f : A → Call B)
    (m : Process)
    → OnErr E (c m)
    → OnOk P (c m)
    → ((a : A) (m' : Process) → P a m' → OnErr E (f a m'))
    → OnErr E ((c >>= f) m)
OnErr-bind {A} {B} P E c f m h k step = by_result (c m) h k
  where
    by_result :
        (p : Process × Result A String)
        → OnErr E p
        → OnOk P p
        → OnErr {A = B} E (elim p.1 [ ok a ↦ f a p.0 | err e ↦ (p.0, err e) ])
    by_result (m', ok a) h k = step a m' k
    by_result (m', err e) h k = h
