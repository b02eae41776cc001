-- ===== src/Runtime/Process/Files/Laws.antt =====
-- What the file operations of the process runtime do to what it holds.
use cadder.Base.{ℕ, String, ◌≡◌, refl, sym, subst, Option, none, some, List, Result, ok, err, arith}
use cadder.Runtime.Process.Files.{
  changes, change_file, stage, promote, read_existing, read_effective_config, remove_existing,
  remove_effective_config, restore_effective_config,
}
use cadder.Runtime.Process.Holding.{Held, held, IsKept, OnOk, OnOk-bind, OnErr}
use cadder.Runtime.Process.World.{
  Answer, done, fails, fails_late, times_out, exits, Process, answer, answered, completed,
}

abbrev pub with_file : Option (List ℕ) → Held → Held
with_file config h = (config, h.1, h.2)

write_lem :
    (config : Option (List ℕ)) (m : Process)
    → OnOk (λ _ m'. held m' ≡ with_file config (held m)) (change_file config m)
write_lem config m = by_answer (answer m)
  where
    by_answer :
        (a : Answer)
        → OnOk
            (λ _ m'. held m' ≡ with_file config (held m))
            (changes config a (answered m), completed a)
    by_answer done = refl
    by_answer (exits status) = refl
    by_answer (fails e) = tt
    by_answer (fails_late e) = tt
    by_answer times_out = tt

pub stage_lem :
    (rendered : List ℕ) (m : Process)
    → OnOk (λ staged m'. (staged ≡ rendered) × IsKept (held m) m') (stage rendered m)
unfolding stage
stage_lem rendered m = by_answer (completed (answer m))
  where
    by_answer :
        (r : Result (Unit {0}) String)
        → OnOk
            (λ staged m'. (staged ≡ rendered) × IsKept (held m) m')
            (elim r [ ok a ↦ (answered m, ok rendered) | err e ↦ (answered m, err e) ])
    by_answer (ok u) = (refl, refl)
    by_answer (err e) = tt

pub promote_lem :
    (staged : List ℕ) (m : Process)
    → OnOk (λ _ m'. held m' ≡ with_file (some staged) (held m)) (promote staged m)
unfolding promote
promote_lem staged m = write_lem (some staged) m

pub read_effective_config_lem :
    (m : Process)
    → OnOk (λ c m'. (c ≡ m.runtime.effective) × IsKept (held m) m') (read_effective_config m)
unfolding read_effective_config
read_effective_config_lem m = by_file m.runtime.effective refl
  where
    by_answer :
        (c : List ℕ) (r : Result (Unit {0}) String)
        → m.runtime.effective ≡ some c
        → OnOk
            (λ c m'. (c ≡ m.runtime.effective) × IsKept (held m) m')
            (elim r [ ok a ↦ (answered m, ok (some c)) | err e ↦ (answered m, err e) ])
    by_answer c (ok u) h = (sym h, refl)
    by_answer c (err e) h = tt

    by_file :
        (f : Option (List ℕ))
        → m.runtime.effective ≡ f
        → OnOk (λ c m'. (c ≡ m.runtime.effective) × IsKept (held m) m') (read_existing f m)
    by_file none h = (sym h, refl)
    by_file (some c) h = by_answer c (completed (answer m)) h

pub remove_effective_config_lem :
    (m : Process) → OnOk (λ _ m'. held m' ≡ with_file none (held m)) (remove_effective_config m)
unfolding remove_effective_config
remove_effective_config_lem m = by_file m.runtime.effective refl
  where
    by_file :
        (f : Option (List ℕ))
        → m.runtime.effective ≡ f
        → OnOk (λ _ m'. held m' ≡ with_file none (held m)) (remove_existing f m)
    by_file none h = ground (arith, h)
    by_file (some c) h = write_lem none m

pub restore_effective_config_lem :
    (previous : Option (List ℕ)) (m : Process)
    → OnOk (λ _ m'. held m' ≡ with_file previous (held m)) (restore_effective_config previous m)
unfolding restore_effective_config
restore_effective_config_lem none m = remove_effective_config_lem m
restore_effective_config_lem (some p) m =
    OnOk-bind (λ staged m'. (staged ≡ p) × IsKept (held m) m')
      (λ _ m'. held m' ≡ with_file (some p) (held m)) (stage p) promote m (stage_lem p m)
      (λ staged m' (same, kept).
        subst (λ c. OnOk (λ _ m''. held m'' ≡ with_file (some p) (held m)) (promote c m'))
          (sym same)
          (subst (λ h. OnOk (λ _ m''. held m'' ≡ with_file (some p) h) (promote p m')) kept
            (promote_lem p m')))

-- The file operations leave the child alone, also where they fail.
change_file-child :
    (config : Option (List ℕ)) (m : Process)
    → (change_file config m).0.runtime.child ≡ m.runtime.child
change_file-child config m = by_answer (answer m)
  where
    by_answer : (a : Answer) → (changes config a (answered m)).runtime.child ≡ m.runtime.child
    by_answer done = refl
    by_answer (exits status) = refl
    by_answer (fails e) = refl
    by_answer (fails_late e) = refl
    by_answer times_out = refl

pub restore_effective_config-child :
    (previous : Option (List ℕ)) (m : Process)
    → (restore_effective_config previous m).0.runtime.child ≡ m.runtime.child
unfolding restore_effective_config stage promote remove_effective_config
restore_effective_config-child none m = by_file m.runtime.effective
  where
    by_file : (f : Option (List ℕ)) → (remove_existing f m).0.runtime.child ≡ m.runtime.child
    by_file none = refl
    by_file (some c) = change_file-child none m
restore_effective_config-child (some p) m = ground (arith, change_file-child (some p) (answered m))

pub stage_refused : (rendered : List ℕ) (m : Process) → OnErr (IsKept (held m)) (stage rendered m)
unfolding stage
stage_refused rendered m = by_answer (completed (answer m))
  where
    by_answer :
        (r : Result (Unit {0}) String)
        → OnErr {A = List ℕ}
            (IsKept (held m))
            (elim r [ ok a ↦ (answered m, ok rendered) | err e ↦ (answered m, err e) ])
    by_answer (ok u) = tt
    by_answer (err e) = refl

pub read_effective_config_refused :
    (m : Process) → OnErr (IsKept (held m)) (read_effective_config m)
unfolding read_effective_config
read_effective_config_refused m = by_file m.runtime.effective
  where
    by_answer :
        (c : List ℕ) (r : Result (Unit {0}) String)
        → OnErr {A = Option (List ℕ)}
            (IsKept (held m))
            (elim r [ ok a ↦ (answered m, ok (some c)) | err e ↦ (answered m, err e) ])
    by_answer c (ok u) = tt
    by_answer c (err e) = refl

    by_file : (f : Option (List ℕ)) → OnErr (IsKept (held m)) (read_existing f m)
    by_file none = tt
    by_file (some c) = by_answer c (completed (answer m))
