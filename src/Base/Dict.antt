-- ===== src/Base/Dict.antt =====
-- `BTreeMap<String, V>`: an association list in the order of its keys. `insert` replaces the value
-- of a key that is there; a walk over `values` is in key order.
use mathlib.Core.Path.{◌≡◌, refl, ap, sym, subst}
use mathlib.Core.Logic.{◌≢◌, inl, inr}
use mathlib.Core.Bool.{Bool}
use mathlib.Core.Option
use mathlib.Core.Option.{Option, none, some}
use mathlib.Core.List.{List, [], ◌∷◌}
use Prim.Native.String.{String}
use native.Mathlib.Omega.{arith}
use text.Mathlib.TextEquality.{eq_iff}
use cadder.Base.Tests.{◌==◌, string_eq, if◌then◌else◌, str_lt, ==_refl, ==→eq, Bool-cases}
use cadder.Base.Lists.{All}

abbrev pub Dict {ℓ} : Type ℓ → Type ℓ
Dict V = List (String × V)

module _ {ℓ} {V : Type ℓ} where
  unfoldable pub lookup : String → Dict V → Option V
  lookup k [] = none
  lookup k ((j, v) ∷ m) = if j == k then some v else lookup k m

  unfoldable pub remove : String → Dict V → Dict V
  remove k [] = []
  remove k ((j, v) ∷ m) = let rest = remove k m in if j == k then rest else (j, v) ∷ rest

  -- The place of a new key among the keys.
  place : String → V → Dict V → Dict V
  place k v [] = (k, v) ∷ []
  place k v ((j, w) ∷ m) =
      let later = place k v m in if str_lt k j then (k, v) ∷ (j, w) ∷ m else (j, w) ∷ later

  unfoldable pub insert : String → V → Dict V → Dict V
  unfolding place remove
  insert k v m = place k v (remove k m)

  -- `get_mut`, with what is written through it.
  unfoldable pub adjust : String → (V → V) → Dict V → Dict V
  adjust k f [] = []
  adjust k f ((j, v) ∷ m) = if j == k then (j, f v) ∷ m else (j, v) ∷ adjust k f m

  abbrev pub values : Dict V → List V
  values [] = []
  values ((k, v) ∷ m) = v ∷ values m

  unfoldable pub retain : (String → Bool) → Dict V → Dict V
  retain p [] = []
  retain p ((k, v) ∷ m) = let rest = retain p m in if p k then (k, v) ∷ rest else rest

  -- Each key stands once.
  abbrev pub Absent : String → Dict V → Type 0
  Absent k m = All (λ (e : String × V). e.0 ≢ k) m

  abbrev pub Distinct : Dict V → Type 0
  Distinct [] = Unit
  Distinct ((k, v) ∷ m) = Absent k m × Distinct m

module _ {ℓ} {V : Type ℓ} where
  pub lookup-remove :
      (k j : String) (m : Dict V) → lookup j (remove k m) ≡ (if k == j then none else lookup j m)
  unfolding lookup remove
  lookup-remove k j [] = ground arith
  lookup-remove k j ((i, v) ∷ m) =
      ground (arith, eq_iff k j, eq_iff i k, eq_iff i j, lookup-remove k j m)

  lookup-place :
      (k j : String) (v : V) (m : Dict V)
      → lookup k m ≡ none
      → lookup j (place k v m) ≡ (if k == j then some v else lookup j m)
  unfolding lookup place
  lookup-place k j v [] h = refl
  lookup-place k j v ((i, w) ∷ m) h =
      ground (arith, eq_iff k j, eq_iff i k, eq_iff i j, lookup-place k j v m)

  pub lookup-insert :
      (k j : String) (v : V) (m : Dict V)
      → lookup j (insert k v m) ≡ (if k == j then some v else lookup j m)
  unfolding insert
  lookup-insert k j v m =
      ground (
        arith,
        ==_refl k,
        lookup-remove k k m,
        lookup-remove k j m,
        lookup-place k j v (remove k m),
      )

  pub lookup-adjust :
      (k j : String) (f : V → V) (m : Dict V)
      → lookup j (adjust k f m) ≡ (if k == j then Option.map f (lookup j m) else lookup j m)
  unfolding lookup adjust
  lookup-adjust k j f [] = ground arith
  lookup-adjust k j f ((i, v) ∷ m) =
      ground (arith, eq_iff k j, eq_iff i k, eq_iff i j, lookup-adjust k j f m)

  pub lookup-retain :
      (p : String → Bool) (j : String) (m : Dict V)
      → lookup j (retain p m) ≡ (if p j then lookup j m else none)
  unfolding lookup retain
  lookup-retain p j [] = ground arith
  lookup-retain p j ((i, v) ∷ m) = ground (arith, eq_iff i j, ap p, lookup-retain p j m)

module _ {ℓ κ} {V : Type ℓ} (P : String × V → Type κ) where
  pub All-remove : (k : String) (m : Dict V) → All P m → All P (remove k m)
  unfolding remove
  All-remove k [] h = tt
  All-remove k ((j, v) ∷ m) h = ground (arith, All-remove k m h.1)

  All-place : (k : String) (v : V) (m : Dict V) → P (k, v) → All P m → All P (place k v m)
  unfolding place
  All-place k v [] p h = (p, tt)
  All-place k v ((j, w) ∷ m) p h = ground (arith, All-place k v m p h.1)

  pub All-insert : (k : String) (v : V) (m : Dict V) → P (k, v) → All P m → All P (insert k v m)
  unfolding insert
  All-insert k v m p h = All-place k v (remove k m) p (All-remove k m h)

  pub All-retain : (p : String → Bool) (m : Dict V) → All P m → All P (retain p m)
  unfolding retain
  All-retain p [] h = tt
  All-retain p ((j, v) ∷ m) h = ground (arith, All-retain p m h.1)

  pub All-lookup : (k : String) (v : V) (m : Dict V) → All P m → lookup k m ≡ some v → P (k, v)
  unfolding lookup
  All-lookup k v [] h e = cc
  All-lookup k v ((j, w) ∷ m) h e = elim (Bool-cases (j == k)) [
    | inl same ↦ subst P (ground (arith, eq_iff j k)) h.0
    | inr other ↦ All-lookup k v m h.1 (rw (other, lookup) at e)
  ]

module _ {ℓ} {V : Type ℓ} where
  Absent-remove_self : (k : String) (m : Dict V) → Absent k (remove k m)
  unfolding remove
  Absent-remove_self k [] = tt
  Absent-remove_self k ((j, v) ∷ m) = ground (arith, eq_iff j k, Absent-remove_self k m)

  pub Distinct-remove : (k : String) (m : Dict V) → Distinct m → Distinct (remove k m)
  unfolding remove
  Distinct-remove k [] d = tt
  Distinct-remove k ((j, v) ∷ m) d =
      ground (arith, Distinct-remove k m d.1, All-remove (λ e. e.0 ≢ j) k m d.0)

  Distinct-place :
      (k : String) (v : V) (m : Dict V) → Absent k m → Distinct m → Distinct (place k v m)
  unfolding place
  Distinct-place k v [] a d = (tt, tt)
  Distinct-place k v ((j, w) ∷ m) a d =
      let apart : k ≢ j = λ e. a.0 (sym e) in
      ground (arith, Distinct-place k v m a.1 d.1, All-place (λ e. e.0 ≢ j) k v m apart d.0)

  pub Distinct-insert : (k : String) (v : V) (m : Dict V) → Distinct m → Distinct (insert k v m)
  unfolding insert
  Distinct-insert k v m d =
      Distinct-place k v (remove k m) (Absent-remove_self k m) (Distinct-remove k m d)

  Absent-adjust : (k j : String) (f : V → V) (m : Dict V) → Absent j m → Absent j (adjust k f m)
  unfolding adjust
  Absent-adjust k j f [] a = tt
  Absent-adjust k j f ((i, v) ∷ m) a = ground (arith, Absent-adjust k j f m a.1)

  pub Distinct-adjust : (k : String) (f : V → V) (m : Dict V) → Distinct m → Distinct (adjust k f m)
  unfolding adjust
  Distinct-adjust k f [] d = tt
  Distinct-adjust k f ((j, v) ∷ m) d =
      ground (arith, Distinct-adjust k f m d.1, Absent-adjust k j f m d.0)

  pub lookup-Absent : (k : String) (m : Dict V) → Absent k m → lookup k m ≡ none
  unfolding lookup
  lookup-Absent k [] a = refl
  lookup-Absent k ((j, v) ∷ m) a = ground (arith, eq_iff j k, lookup-Absent k m a.1)

module _ {ℓ κ} {V : Type ℓ} (P : String × V → Type κ) where
  -- Writing through `get_mut` keeps what holds of every entry, if the write does.
  pub All-adjust :
      (k : String) (f : V → V) (m : Dict V)
      → ((v : V) → P (k, v) → P (k, f v))
      → All P m
      → All P (adjust k f m)
  unfolding adjust
  All-adjust k f [] step h = tt
  All-adjust k f ((j, v) ∷ m) step h = elim (Bool-cases (j == k)) [
    | inl same ↦ rw same (
      subst (λ i. P (i, f v)) (sym (==→eq j k same))
          (step v (subst (λ i. P (i, v)) (==→eq j k same) h.0)),
      h.1,
    )
    | inr other ↦ rw other (h.0, All-adjust k f m step h.1)
  ]

module _ {ℓ κ} {V : Type ℓ} (P : String × V → Type κ) where
  -- What holds of every value that is found holds of every entry, if the keys are distinct.
  pub All-of-lookup :
      (m : Dict V) → Distinct m → ((k : String) (v : V) → lookup k m ≡ some v → P (k, v)) → All P m
  unfolding lookup
  All-of-lookup [] d h = tt
  All-of-lookup ((j, w) ∷ m) d h = (
    h j w (ground (arith, ==_refl j)),
    All-of-lookup m d.1 (λ k v e. h k v (ground (arith, eq_iff j k, e, lookup-Absent j m d.0))),
  )
