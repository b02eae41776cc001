-- ===== src/Caddy/Domains.antt =====
-- `canonicalize_domain` of crates/cadder-ipc/src/state.rs, and sets of domains.
use Prim.Native.Char.{Char, code}
use Prim.Native.String as Str
use cadder.Base.{
  ℕ, ◌-◌, String, ◌≡◌, Bool, true, false, ◌&&◌, ◌||◌, Option, none, some, List, [], ◌∷◌, leb,
  if◌then◌else◌, ◌==◌, nat_eq, string_eq, any, arith, unwrap_or,
}
use cadder.Base.Dict.{Dict, lookup, insert, lookup-insert}
use cadder.Protocol.State.{is_space}

abbrev is_nil : String → Bool
is_nil Str.[] = true
is_nil (Str.◌∷◌ c s) = false

-- The longest ends of a text whose characters all pass a test are cut off.
trim_start : (ℕ → Bool) → String → String
trim_start p Str.[] = Str.[]
trim_start p (Str.◌∷◌ c s) = if p (code c) then trim_start p s else Str.◌∷◌ c s

trim_end : (ℕ → Bool) → String → String
trim_end p Str.[] = Str.[]
trim_end p (Str.◌∷◌ c s) =
    let rest = trim_end p s in if is_nil rest && p (code c) then Str.[] else Str.◌∷◌ c rest

-- `str::trim`.
unfoldable pub trim : String → String
unfolding trim_start trim_end is_space
trim s = trim_end is_space (trim_start is_space s)

lower : Char → Char
lower c =
    if leb 65 (code c) && leb (code c) 90
    then Str.char_at "abcdefghijklmnopqrstuvwxyz" (code c - 65)
    else c

unfoldable pub to_ascii_lowercase : String → String
unfolding lower
to_ascii_lowercase Str.[] = Str.[]
to_ascii_lowercase (Str.◌∷◌ c s) = Str.◌∷◌ (lower c) (to_ascii_lowercase s)

unfoldable pub canonicalize_domain : (String → Option String) → String → String
unfolding trim_start trim_end to_ascii_lowercase is_space
canonicalize_domain domain_to_ascii raw =
    let domain = trim_end (λ c. c == b'.') (trim_end is_space (trim_start is_space raw)) in
    to_ascii_lowercase (unwrap_or (domain_to_ascii domain) domain)

abbrev pub DomainSet : Type 0
DomainSet = Dict (Unit {0})

abbrev pub set_member : String → DomainSet → Bool
set_member k m = elim (lookup k m) [ none ↦ false | some _ ↦ true ]

unfoldable pub set_of : DomainSet → List String → DomainSet
unfolding insert
set_of m [] = m
set_of m (k ∷ ks) = set_of (insert k tt m) ks

abbrev pub set_list : DomainSet → List String
set_list [] = []
set_list ((k, u) ∷ m) = k ∷ set_list m

pub set_member-set_of :
    (k : String) (m : DomainSet) (ks : List String)
    → set_member k (set_of m ks) ≡ (set_member k m || any (λ j. j == k) ks)
unfolding set_of
set_member-set_of k m [] = ground arith
set_member-set_of k m (j ∷ ks) =
    ground (arith, lookup-insert j k tt m, set_member-set_of k (insert j tt m) ks)
