-- ===== src/Runtime/Process/Files.antt =====
-- crates/cadder-daemon/src/runtime_file.rs as the process runtime uses it: the effective
-- configuration and the staged candidates, which are private files until they are promoted.
pub mod Laws
use cadder.Base.{ℕ, String, Option, none, some, List, Result, ok, err}
use cadder.Runtime.Process.World.{
  Answer, done, fails, fails_late, times_out, exits, Process, Call, ◌>>=◌, ◌>>◌, pure, fail, answer,
  answered, with_effective, completed, call,
}

-- A file is changed by an answer, unless the call failed before.
abbrev changes : Option (List ℕ) → Answer → Process → Process
changes config (fails e) m = m
changes config times_out m = m
changes config done m = with_effective config m
changes config (fails_late e) m = with_effective config m
changes config (exits status) m = with_effective config m

abbrev change_file : Option (List ℕ) → Call (Unit {0})
change_file config m = (changes config (answer m) (answered m), completed (answer m))

-- The configuration that is staged, by the bytes of its candidate.
unfoldable pub stage : List ℕ → Call (List ℕ)
stage rendered = do call; pure rendered

unfoldable pub promote : List ℕ → Call (Unit {0})
promote staged = change_file (some staged)

abbrev read_existing : Option (List ℕ) → Call (Option (List ℕ))
read_existing none = pure none
read_existing (some config) = do call; pure (some config)

unfoldable pub read_effective_config : Call (Option (List ℕ))
read_effective_config m = read_existing m.runtime.effective m

abbrev remove_existing : Option (List ℕ) → Call (Unit {0})
remove_existing none = pure tt
remove_existing (some config) = change_file none

unfoldable pub remove_effective_config : Call (Unit {0})
remove_effective_config m = remove_existing m.runtime.effective m

unfoldable pub restore_effective_config : Option (List ℕ) → Call (Unit {0})
unfolding stage promote remove_effective_config
restore_effective_config none = remove_effective_config
restore_effective_config (some previous) = do staged ← stage previous; promote staged
