-- ===== src/Service/Rollback/Target.antt =====
-- Which version a rollback goes back to: the history read newest first counts down.
use mathlib.Core.List.{reverse, reverse-cons}
use mathlib.Core.Path.{subst}
use pacinet.Prelude.{
  ℕ, zero, suc, ◌+◌, ◌≤◌, ◌<◌, String, ◌≡◌, ◌≢◌, inl, inr, refl, sym, ap, some, List, [], ◌∷◌, ◌++◌,
  ok, length, length-append, take, find, get_elem?, eqb, IsIn, arith, Bool-cases, true, false,
}
use pacinet.Model.{PolicyVersion}
use pacinet.Storage.Run.Invariant.{IsNumbered}
use pacinet.Service.Rollback.{find_target}

-- The numbers count down to `b`.
unfoldable pub IsCountdown : ℕ → List PolicyVersion → Type 0
IsCountdown b [] = Unit
IsCountdown b (v ∷ vs) = (v.version ≡ b + length vs) × IsCountdown b vs

IsCountdown-concat :
    (b : ℕ) (v : PolicyVersion) (vs : List PolicyVersion)
    → IsCountdown (suc b) vs
    → v.version ≡ b
    → IsCountdown b (vs ++ v ∷ [])
unfolding IsCountdown
IsCountdown-concat b v [] h e = (omega (arith, e), tt)
IsCountdown-concat b v (w ∷ ws) h e =
    (omega (arith, h.0, length-append ws (v ∷ [])), IsCountdown-concat b v ws h.1 e)

pub IsCountdown-reverse :
    (k : String) (b : ℕ) (vs : List PolicyVersion) → IsNumbered k b vs → IsCountdown b (reverse vs)
unfolding IsCountdown
IsCountdown-reverse k b [] h = tt
IsCountdown-reverse k b (v ∷ vs) h =
    rw (reverse-cons v vs)
      (IsCountdown-concat b v (reverse vs) (IsCountdown-reverse k (suc b) vs h.2) h.0)

below :
    (b : ℕ) (v : PolicyVersion) (vs : List PolicyVersion)
    → IsCountdown b vs
    → IsIn v vs
    → v.version < b + length vs
unfolding IsCountdown
below b v [] h i = elim i [ ]
below b v (w ∷ ws) h (inl e) = let same = ap (λ x. x.version) e in omega (arith, same, h.0)
below b v (w ∷ ws) h (inr i) = let less = below b v ws h.1 i in omega (arith, less)

find_version :
    (b n : ℕ) (v : PolicyVersion) (vs : List PolicyVersion)
    → IsCountdown b vs
    → IsIn v vs
    → b + length vs ≤ v.version + n
    → find (λ w. eqb w.version v.version) (take n vs) ≡ some v
unfolding IsCountdown
find_version b n v [] h i few = elim i [ ]
find_version b zero v (w ∷ ws) h i few =
    let less = below b v (w ∷ ws) h i in absurd (omega (arith, less, few))
find_version b (suc n) v (w ∷ ws) h (inl e) few =
    let same : eqb w.version v.version ≡ true = ground (arith, ap (λ x. x.version) e) in
    rw same (ap some (sym e))
find_version b (suc n) v (w ∷ ws) h (inr i) few =
    let less = below b v ws h.1 i in
    let other : eqb w.version v.version ≡ false = ground (arith, less, h.0) in
    rw other (find_version b n v ws h.1 i (omega (arith, few)))

second_version :
    (n : ℕ) (v : PolicyVersion) (vs : List PolicyVersion)
    → IsCountdown 1 vs
    → IsIn v vs
    → suc v.version ≡ length vs
    → get_elem? (take (suc (suc n)) vs) 1 ≡ some v
unfolding IsCountdown
second_version n v [] h i e = elim i [ ]
second_version n v (w ∷ ws) h (inl p) e =
    let same = ap (λ x. x.version) p in absurd (omega (arith, same, h.0, e))
second_version n v (w ∷ []) h (inr i) e = elim i [ ]
second_version n v (w ∷ x ∷ xs) h (inr (inl p)) e = ap some (sym p)
second_version n v (w ∷ x ∷ xs) h (inr (inr i)) e =
    let less = below 1 v xs h.1.1 i in absurd (omega (arith, less, e))

-- The previous version for the target 0, and the version of the number for another.
pub find_target-version :
    (target : ℕ) (v : PolicyVersion) (vs : List PolicyVersion)
    → IsCountdown 1 vs
    → IsIn v vs
    → (target ≡ 0 → suc v.version ≡ length vs)
    → (target ≢ 0 → v.version ≡ target)
    → length vs < v.version + 10
    → find_target target (take 10 vs) ≡ ok (ok v)
unfolding find_target
find_target-version target v vs h i previous named few = elim (Bool-cases (eqb target 0)) [
  | inl e ↦
      let second = second_version 8 v vs h i (previous (ground (arith, e))) in
      rw (e, second, find_target) refl
  | inr e ↦
      let number = named (ground (arith, e)) in
      let found =
        subst (λ t. find (λ w. eqb w.version t) (take 10 vs) ≡ some v) number
          (find_version 1 10 v vs h i (omega (arith, few))) in
      rw (e, found, find_target) refl
]
