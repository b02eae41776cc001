-- ===== src/Registrations/Heartbeats.antt =====
-- Merging the heartbeats that arrived while a transaction was under way.
use cadder.Base.{
  ℕ, String, ◌≡◌, refl, max, true, Option, none, some, [], ◌∷◌, ◌==◌, string_eq, arith,
  if◌then◌else◌, sym, ap, ◌∙◌, All,
}
use cadder.Base.Dict.{lookup, Distinct, Absent}
use cadder.Protocol.State.{EntrypointRegistration, nonce}
use cadder.Registrations.{Registrations, merge_heartbeat, merge_live_heartbeats}
use cadder.Registrations.Conflicts.{serves}
use cadder.Registrations.Exclusive.{KeyMatches, IsExclusive, SingleOwner-of_less}
use mathlib.Core.Option
use mathlib.Core.Path.{fun_ext}
use text.Mathlib.TextEquality.{eq_iff}

abbrev pub at_heartbeat : ℕ → EntrypointRegistration → EntrypointRegistration
at_heartbeat t c = record c { last_heartbeat_utc = t }

-- The later of a candidate's heartbeat and that of the live entry of the same owner.
pub merged_at : Option EntrypointRegistration → EntrypointRegistration → ℕ
merged_at none c = c.last_heartbeat_utc
merged_at (some l) c =
    if nonce c == nonce l
    then max c.last_heartbeat_utc l.last_heartbeat_utc
    else c.last_heartbeat_utc

merge_heartbeat_lem :
    (o : Option EntrypointRegistration) (c : EntrypointRegistration)
    → merge_heartbeat o c ≡ at_heartbeat (merged_at o c) c
unfolding merge_heartbeat merged_at
merge_heartbeat_lem none c = refl
merge_heartbeat_lem (some l) c = ground arith

lookup-merge_heartbeat :
    (m live : Registrations) (id : String)
    → lookup id (merge_live_heartbeats m live)
      ≡ Option.map (merge_heartbeat (lookup id live)) (lookup id m)
unfolding lookup merge_live_heartbeats
lookup-merge_heartbeat [] live id = refl
lookup-merge_heartbeat ((j, c) ∷ m) live id =
    ground (arith, eq_iff j id, lookup-merge_heartbeat m live id)

-- The merge touches heartbeat times alone: a candidate entry whose live entry has the same nonce
-- takes the later of the two times, and any other entry keeps its own; no entry comes or goes.
pub lookup-merge_live_heartbeats :
    (m live : Registrations) (id : String)
    → lookup id (merge_live_heartbeats m live)
      ≡ Option.map
          (λ (c : EntrypointRegistration). at_heartbeat (merged_at (lookup id live) c) c)
          (lookup id m)
lookup-merge_live_heartbeats m live id =
    lookup-merge_heartbeat m live id
    ∙ ap (λ (f : EntrypointRegistration → EntrypointRegistration). Option.map f (lookup id m))
        (fun_ext (merge_heartbeat_lem (lookup id live)))

-- The registrations with no heartbeat times.
unfoldable pub without_heartbeats : Registrations → Registrations
without_heartbeats [] = []
without_heartbeats ((id, r) ∷ m) = (id, at_heartbeat 0 r) ∷ without_heartbeats m

without-merge_heartbeat :
    (o : Option EntrypointRegistration) (c : EntrypointRegistration)
    → at_heartbeat 0 (merge_heartbeat o c) ≡ at_heartbeat 0 c
unfolding merge_heartbeat
without-merge_heartbeat none c = refl
without-merge_heartbeat (some l) c = ground arith

pub without-merge :
    (m live : Registrations)
    → without_heartbeats (merge_live_heartbeats m live) ≡ without_heartbeats m
unfolding without_heartbeats merge_live_heartbeats
without-merge [] live = refl
without-merge ((id, c) ∷ m) live =
    rw (without-merge m live, without-merge_heartbeat (lookup id live) c) refl

merge-keyed :
    (m live : Registrations) → All KeyMatches m → All KeyMatches (merge_live_heartbeats m live)
unfolding merge_live_heartbeats
merge-keyed [] live h = tt
merge-keyed ((j, c) ∷ m) live h =
    (ground (arith, h.0, merge_heartbeat_lem (lookup j live) c), merge-keyed m live h.1)

merge-Absent :
    (id : String) (m live : Registrations) → Absent id m → Absent id (merge_live_heartbeats m live)
unfolding merge_live_heartbeats
merge-Absent id [] live h = tt
merge-Absent id ((j, c) ∷ m) live h = (h.0, merge-Absent id m live h.1)

merge-Distinct : (m live : Registrations) → Distinct m → Distinct (merge_live_heartbeats m live)
unfolding merge_live_heartbeats
merge-Distinct [] live h = tt
merge-Distinct ((j, c) ∷ m) live h = (merge-Absent j m live h.0, merge-Distinct m live h.1)

serves-beat :
    (k : String) (c : EntrypointRegistration) (t : ℕ)
    → serves k (record c { last_heartbeat_utc = t }) ≡ serves k c
unfolding serves
serves-beat k c t = refl

merge_from :
    (m live : Registrations) (j : String) (s : EntrypointRegistration)
    → lookup j (merge_live_heartbeats m live) ≡ some s
    → (r : EntrypointRegistration) × (lookup j m ≡ some r)
      × ((k : String) → serves k s ≡ true → serves k r ≡ true)
merge_from m live j s e =
    let (r, found, same) =
      (Option.map-eq-some_iff _ _).0 (sym (lookup-merge_live_heartbeats m live j) ∙ e) in
    (r, found, λ k h. sym (serves-beat k r _) ∙ ap (serves k) same ∙ h)

pub merge-IsExclusive :
    (m live : Registrations) → IsExclusive m → IsExclusive (merge_live_heartbeats m live)
merge-IsExclusive m live x = record {
  keyed = merge-keyed m live x.keyed;
  distinct = merge-Distinct m live x.distinct;
  single = SingleOwner-of_less m (merge_live_heartbeats m live) (merge_from m live) x.single;
}
