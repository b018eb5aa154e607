-- ===== src/Prelude/Lists.antt =====
-- Lists measured by native numbers, and the iterator methods that the program calls.
use Prim.Native.Nat.{ℕ, zero, suc, ◌+◌, ◌-◌, ◌≤◌, ◌<◌}
use mathlib.Core.Path.{◌≡◌, refl, sym, ap, subst, ◌∙◌}
use mathlib.Core.Logic.{◌⊎◌, inl, inr}
use mathlib.Core.Bool.{Bool, true, false, ◌&&◌, ◌||◌}
use mathlib.Core.Option.{Option, none, some}
use mathlib.Core.List.{List, [], ◌∷◌, ◌++◌, reverse, reverse-cons, reverse-reverse}
use native.Mathlib.Omega.{arith}
use pacinet.Prelude.Tests.{if◌then◌else◌, Bool-cases}

module _ {ℓ} {A : Type ℓ} where
  abbrev pub length : List A → ℕ
  length [] = 0
  length (x ∷ xs) = suc (length xs)

  abbrev pub get_elem? : List A → ℕ → Option A
  get_elem? [] i = none
  get_elem? (x ∷ xs) zero = some x
  get_elem? (x ∷ xs) (suc i) = get_elem? xs i

  abbrev pub take : ℕ → List A → List A
  take zero xs = []
  take (suc n) [] = []
  take (suc n) (x ∷ xs) = x ∷ take n xs

  abbrev pub drop : ℕ → List A → List A
  drop zero xs = xs
  drop (suc n) [] = []
  drop (suc n) (x ∷ xs) = drop n xs

  -- `iter().filter(p)` and `retain(p)`.
  abbrev pub keep : (A → Bool) → List A → List A
  keep p [] = []
  keep p (x ∷ xs) = let rest = keep p xs in if p x then x ∷ rest else rest

  abbrev pub any : (A → Bool) → List A → Bool
  any p [] = false
  any p (x ∷ xs) = p x || any p xs

  abbrev pub all : (A → Bool) → List A → Bool
  all p [] = true
  all p (x ∷ xs) = p x && all p xs

  -- `iter().find(p)`
  abbrev pub find : (A → Bool) → List A → Option A
  find p [] = none
  find p (x ∷ xs) = if p x then some x else find p xs

  abbrev pub head? : List A → Option A
  head? [] = none
  head? (x ∷ xs) = some x

  abbrev pub last? : List A → Option A
  last? [] = none
  last? (x ∷ []) = some x
  last? (x ∷ y ∷ xs) = last? (y ∷ xs)

  pub take-nil : (n : ℕ) → take n [] ≡ []
  take-nil zero = refl
  take-nil (suc n) = refl

  pub length-append : (xs ys : List A) → length (xs ++ ys) ≡ length xs + length ys
  length-append [] ys = omega arith
  length-append (x ∷ xs) ys = omega (arith, length-append xs ys)

  pub length-drop : (n : ℕ) (xs : List A) → length (drop n xs) ≡ length xs - n
  length-drop zero xs = omega arith
  length-drop (suc n) [] = omega arith
  length-drop (suc n) (x ∷ xs) = omega (arith, length-drop n xs)

  pub length-take-le : (n : ℕ) (xs : List A) → length (take n xs) ≤ n
  length-take-le zero xs = omega arith
  length-take-le (suc n) [] = omega arith
  length-take-le (suc n) (x ∷ xs) = omega (arith, length-take-le n xs)

  pub length-keep-le : (p : A → Bool) (xs : List A) → length (keep p xs) ≤ length xs
  length-keep-le p [] = omega arith
  length-keep-le p (x ∷ xs) = ground (arith, length-keep-le p xs)

  pub last?-concat : (xs : List A) (x : A) → last? (xs ++ x ∷ []) ≡ some x
  last?-concat [] x = refl
  last?-concat (y ∷ []) x = refl
  last?-concat (y ∷ z ∷ xs) x = last?-concat (z ∷ xs) x

  pub split_last : (xs : List A) (x : A) → last? xs ≡ some x → (ys : List A) × (xs ≡ ys ++ x ∷ [])
  split_last [] x h = absurd cc
  split_last (y ∷ []) x h = ([], cc)
  split_last (y ∷ z ∷ zs) x h = let (ys, e) = split_last (z ∷ zs) x h in (y ∷ ys, ap (λ t. y ∷ t) e)

  pub last?-drop : (n : ℕ) (xs : List A) → n < length xs → last? (drop n xs) ≡ last? xs
  last?-drop zero xs h = refl
  last?-drop (suc n) [] h = elim h [ ]
  last?-drop (suc n) (x ∷ []) h = absurd (omega arith)
  last?-drop (suc n) (x ∷ y ∷ xs) h = last?-drop n (y ∷ xs) (omega arith)

module _ {ℓ κ} {A : Type ℓ} (P : A → Type κ) where
  -- `P` holds of every element: by recursion, so that the tactics read it.
  abbrev pub All : List A → Type κ
  All [] = Unit
  All (x ∷ xs) = P x × All xs

  pub All-append : (xs ys : List A) → All xs → All ys → All (xs ++ ys)
  All-append [] ys h k = k
  All-append (x ∷ xs) ys h k = (h.0, All-append xs ys h.1 k)

  pub All-drop : (n : ℕ) (xs : List A) → All xs → All (drop n xs)
  All-drop zero xs h = h
  All-drop (suc n) [] h = tt
  All-drop (suc n) (x ∷ xs) h = All-drop n xs h.1

  pub All-take : (n : ℕ) (xs : List A) → All xs → All (take n xs)
  All-take zero xs h = tt
  All-take (suc n) [] h = tt
  All-take (suc n) (x ∷ xs) h = (h.0, All-take n xs h.1)

module _ {A : Type 0} where
  -- Membership by recursion, which the tactics take apart.
  abbrev pub IsIn : A → List A → Type 0
  IsIn a [] = ⊥
  IsIn a (x ∷ xs) = (a ≡ x) ⊎ IsIn a xs

  pub IsIn-keep : (p : A → Bool) (a : A) (xs : List A) → IsIn a xs → p a ≡ true → IsIn a (keep p xs)
  IsIn-keep p a [] m h = m
  IsIn-keep p a (x ∷ xs) (inl e) h = rw (ap p (sym e) ∙ h) (inl e)
  IsIn-keep p a (x ∷ xs) (inr m) h = elim (Bool-cases (p x)) [
    | inl t ↦ rw t (inr (IsIn-keep p a xs m h))
    | inr f ↦ rw f (IsIn-keep p a xs m h)
  ]

  pub IsIn-of_IsIn-keep :
      (p : A → Bool) (a : A) (xs : List A) → IsIn a (keep p xs) → IsIn a xs × (p a ≡ true)
  IsIn-of_IsIn-keep p a [] m = elim m [ ]
  IsIn-of_IsIn-keep p a (x ∷ xs) m = split (p x) refl (IsIn-of_IsIn-keep p a xs) m
    where
      split :
          (b : Bool)
          → p x ≡ b
          → (IsIn a (keep p xs) → IsIn a xs × (p a ≡ true))
          → IsIn a (if b then x ∷ keep p xs else keep p xs)
          → IsIn a (x ∷ xs) × (p a ≡ true)
      split true e ih (inl h) = (inl h, ap p h ∙ e)
      split true e ih (inr h) = (inr (ih h).0, (ih h).1)
      split false e ih h = (inr (ih h).0, (ih h).1)

  pub IsIn-append_left : (a : A) (xs ys : List A) → IsIn a xs → IsIn a (xs ++ ys)
  IsIn-append_left a [] ys m = elim m [ ]
  IsIn-append_left a (x ∷ xs) ys (inl e) = inl e
  IsIn-append_left a (x ∷ xs) ys (inr m) = inr (IsIn-append_left a xs ys m)

  pub IsIn-append_right : (a : A) (xs ys : List A) → IsIn a ys → IsIn a (xs ++ ys)
  IsIn-append_right a [] ys m = m
  IsIn-append_right a (x ∷ xs) ys m = inr (IsIn-append_right a xs ys m)

  pub IsIn-of_IsIn-append : (a : A) (xs ys : List A) → IsIn a (xs ++ ys) → IsIn a xs ⊎ IsIn a ys
  IsIn-of_IsIn-append a [] ys m = inr m
  IsIn-of_IsIn-append a (x ∷ xs) ys (inl e) = inl (inl e)
  IsIn-of_IsIn-append a (x ∷ xs) ys (inr m) = elim (IsIn-of_IsIn-append a xs ys m) [
    | inl h ↦ inl (inr h)
    | inr h ↦ inr h
  ]

  pub IsIn-reverse : (a : A) (xs : List A) → IsIn a xs → IsIn a (reverse xs)
  IsIn-reverse a [] m = elim m [ ]
  IsIn-reverse a (x ∷ xs) (inl e) =
      rw (reverse-cons x xs) (IsIn-append_right a (reverse xs) (x ∷ []) (inl e))
  IsIn-reverse a (x ∷ xs) (inr m) =
      rw (reverse-cons x xs) (IsIn-append_left a (reverse xs) (x ∷ []) (IsIn-reverse a xs m))

  pub IsIn-of_IsIn-reverse : (a : A) (xs : List A) → IsIn a (reverse xs) → IsIn a xs
  IsIn-of_IsIn-reverse a xs m = subst (IsIn a) (reverse-reverse xs) (IsIn-reverse a (reverse xs) m)

  pub length-reverse : (xs : List A) → length (reverse xs) ≡ length xs
  length-reverse [] = refl
  length-reverse (x ∷ xs) =
      ap length (reverse-cons x xs)
      ∙ length-append (reverse xs) (x ∷ [])
      ∙ omega (arith, length-reverse xs)

  -- A list that is no longer than `k` is all of what `take k` gives.
  pub take_of_length-le : (k : ℕ) (ys : List A) → length ys ≤ k → take k ys ≡ ys
  take_of_length-le zero ys h =
      elim ys as (λ l. length l ≤ 0 → [] ≡ l) [
        | [] ↦ λ _. refl
        | y ∷ rest ↦ λ short. absurd (omega arith)
      ]
        h
  take_of_length-le (suc k) [] h = refl
  take_of_length-le (suc k) (y ∷ rest) h =
      let same = take_of_length-le k rest (omega arith) in ap (λ tail. y ∷ tail) same

  pub All-of-in {κ} : (P : A → Type κ) (x : A) (xs : List A) → All P xs → IsIn x xs → P x
  All-of-in P x [] h m = elim m [ ]
  All-of-in P x (y ∷ xs) h (inl e) = subst P (sym e) h.0
  All-of-in P x (y ∷ xs) h (inr m) = All-of-in P x xs h.1 m
