-- ===== src/Prelude/Tests.antt =====
-- Boolean tests on native numbers and texts, and the conditional.
use Prim.Native.Nat.{ℕ, ◌<◌, compare, Ordering}
use Prim.Native.String.{String}
use mathlib.Core.Path.{◌≡◌, refl}
use mathlib.Core.Logic.{◌⊎◌, inl, inr, ◌≢◌}
use mathlib.Core.Bool.{◌&&◌, Bool, true, false}
use mathlib.Core.Option.{Option, none, some}
use native.Mathlib.Omega.{arith}
use text.Mathlib.Text.{◌==◌ as str_eq}
use text.Mathlib.TextEquality.{eq_iff}

abbrev pub ltb : ℕ → ℕ → Bool
ltb a b = elim (compare a b) [ Ordering.lt ↦ true | _ ↦ false ]

abbrev pub leb : ℕ → ℕ → Bool
leb a b = elim (compare a b) [ Ordering.gt ↦ false | _ ↦ true ]

abbrev pub eqb : ℕ → ℕ → Bool
eqb a b = elim (compare a b) [ Ordering.eq ↦ true | _ ↦ false ]

-- `==` compares texts, which is what the program mostly compares.
infix 50 ◌==◌
abbrev pub ◌==◌ : String → String → Bool
a == b = str_eq a b

pub ne_test : (a b : String) → a ≢ b → (a == b) ≡ false
ne_test a b h = ground (arith, eq_iff a b)

infix 1 if◌then◌else◌
abbrev pub if◌then◌else◌ {ℓ} : {A : Type ℓ} → Bool → A → A → A
if true then x else y = x
if false then x else y = y

pub ltb→lt : (a b : ℕ) → ltb a b ≡ true → a < b
ltb→lt a b h = ground arith

pub lt→ltb : (a b : ℕ) → a < b → ltb a b ≡ true
lt→ltb a b h = ground arith

pub Bool-cases : (b : Bool) → (b ≡ true) ⊎ (b ≡ false)
Bool-cases true = inl refl
Bool-cases false = inr refl

pub Option-cases {ℓ} : {A : Type ℓ} (o : Option A) → (o ≡ none) ⊎ ((a : A) × (o ≡ some a))
Option-cases none = inl refl
Option-cases (some a) = inr (a, refl)

abbrev pub is_some {ℓ} : {A : Type ℓ} → Option A → Bool
is_some none = false
is_some (some _) = true

-- `Option::is_none_or`: an absent filter lets everything through.
abbrev pub is_none_or {ℓ} : {A : Type ℓ} → Option A → (A → Bool) → Bool
is_none_or none p = true
is_none_or (some a) p = p a

-- What an optional value has to satisfy, if it is there.
abbrev pub OptionAll : {A : Type 0} → (A → Type 0) → Option A → Type 0
OptionAll P none = Unit
OptionAll P (some a) = P a

pub test_of_OptionAll :
    {A : Type 0} (P : A → Type 0) (p : A → Bool) (o : Option A)
    → ((a : A) → P a → p a ≡ true)
    → OptionAll P o
    → is_none_or o p ≡ true
test_of_OptionAll P p none f h = refl
test_of_OptionAll P p (some a) f h = f a h

pub OptionAll-of_test :
    {A : Type 0} (P : A → Type 0) (p : A → Bool) (o : Option A)
    → ((a : A) → p a ≡ true → P a)
    → is_none_or o p ≡ true
    → OptionAll P o
OptionAll-of_test P p none f h = tt
OptionAll-of_test P p (some a) f h = f a h

pub and_true : (a b : Bool) → (a && b) ≡ true → (a ≡ true) × (b ≡ true)
and_true a b h = ground arith

pub true_and : (a b : Bool) → a ≡ true → b ≡ true → (a && b) ≡ true
true_and a b h k = ground arith
