-- ===== src/Base/Tests.antt =====
-- Boolean tests on numbers and texts, the conditional, and the splits that keep an equation.
use Prim.Native.Nat.{ℕ, compare, Ordering}
use Prim.Native.String.{String}
use Prim.Native.String as Str
use mathlib.Core.Path.{◌≡◌, refl, ap}
use mathlib.Core.Logic.{◌↔◌, ◌⊎◌, inl, inr}
use mathlib.Core.Bool.{Bool, true, false}
use mathlib.Core.Option.{Option, none, some}
use native.Mathlib.Omega.{arith}
use text.Mathlib.Text.{◌==◌ as str_eq}
use text.Mathlib.TextEquality.{eq_iff}

abbrev pub ltb : ℕ → ℕ → Bool
ltb a b = elim (compare a b) [ Ordering.lt ↦ true | _ ↦ false ]

abbrev pub leb : ℕ → ℕ → Bool
leb a b = elim (compare a b) [ Ordering.gt ↦ false | _ ↦ true ]

infix 1 if◌then◌else◌
abbrev pub if◌then◌else◌ {ℓ} : {A : Type ℓ} → Bool → A → A → A
if true then x else y = x
if false then x else y = y

abbrev nat_test : ℕ → ℕ → Bool
nat_test a b = elim (compare a b) [ Ordering.eq ↦ true | _ ↦ false ]

pub nat_test_iff : (a b : ℕ) → (nat_test a b ≡ true) ↔ (a ≡ b)
nat_test_iff a b = ground arith

-- A type whose values the program compares, with the test and what it decides.
pub record Eq {ℓ} (T : Type ℓ) : Type ℓ where
  pub test : T → T → Bool
  pub decides : (x y : T) → (test x y ≡ true) ↔ (x ≡ y)

instance abbrev pub string_eq : Eq String
string_eq = record { test = str_eq; decides = eq_iff }

instance abbrev pub nat_eq : Eq ℕ
nat_eq = record { test = nat_test; decides = nat_test_iff }

infix 50 ◌==◌
abbrev pub ◌==◌ {ℓ} : {T : Type ℓ} ⦃i : Eq T⦄ → T → T → Bool
◌==◌ ⦃i⦄ = i.test

module _ {ℓ} {T : Type ℓ} ⦃i : Eq T⦄ where
  abbrev option_test : Option T → Option T → Bool
  option_test none none = true
  option_test (some x) (some y) = x == y
  option_test _ _ = false

  pub option_test_iff : (p q : Option T) → (option_test p q ≡ true) ↔ (p ≡ q)
  option_test_iff none none = ((λ _. refl), (λ _. refl))
  option_test_iff none (some y) = ((λ h. cc), (λ h. cc))
  option_test_iff (some x) none = ((λ h. cc), (λ h. cc))
  option_test_iff (some x) (some y) =
      ((λ h. ap some ((i.decides x y).0 h)), (λ h. (i.decides x y).1 (ground arith)))

  instance abbrev pub option_eq : Eq (Option T)
  option_eq = record { test = option_test; decides = option_test_iff }

pub ==→eq : (a b : String) → (a == b) ≡ true → a ≡ b
==→eq a b = (eq_iff a b).0

pub eq→== : (a b : String) → a ≡ b → (a == b) ≡ true
eq→== a b = (eq_iff a b).1

pub ==_refl : (a : String) → (a == a) ≡ true
==_refl a = eq→== a a refl

-- The order of text keys in a sorted map.
abbrev pub str_lt : String → String → Bool
str_lt a b = elim (Str.compare a b) [ Ordering.lt ↦ true | _ ↦ false ]

pub Bool-cases : (b : Bool) → (b ≡ true) ⊎ (b ≡ false)
Bool-cases true = inl refl
Bool-cases false = inr refl

pub Option-cases {ℓ} : {A : Type ℓ} (o : Option A) → (o ≡ none) ⊎ ((a : A) × (o ≡ some a))
Option-cases none = inl refl
Option-cases (some a) = inr (a, refl)

pub some_inj {ℓ} : {A : Type ℓ} {a b : A} → some a ≡ some b → a ≡ b
some_inj e = cc e

-- To split on the test of an `if`.
pub if-elim {ℓ κ} :
    {A : Type ℓ} (P : A → Type κ) (b : Bool) {x y : A}
    → (b ≡ true → P x)
    → (b ≡ false → P y)
    → P (if b then x else y)
if-elim P true p q = p refl
if-elim P false p q = q refl
