-- ===== src/Prelude/Outcome.antt =====
-- Rust's `Result`.
use mathlib.Core.Path.{◌≡◌, refl}
use mathlib.Core.Logic.{◌↔◌, ◌⊎◌, inl, inr}

pub data Result {ℓ κ} (A : Type ℓ) (E : Type κ) : Type (ℓ ⊔ κ) where
  ok : A → Result A E
  err : E → Result A E

-- The operator `?`.
infixl 5 ◌>>=◌ ◌>>◌
abbrev pub ◌>>=◌ {ℓ κ μ} :
    {A : Type ℓ} {B : Type κ} {E : Type μ} → Result A E → (A → Result B E) → Result B E
ok a >>= f = f a
err e >>= f = err e

abbrev pub ◌>>◌ {ℓ κ μ} :
    {A : Type ℓ} {B : Type κ} {E : Type μ} → Result A E → Result B E → Result B E
m >> k = m >>= λ _. k

-- A chain of two checks.
pub then_iff :
    {E : Type 0} (m k : Result (Unit {0}) E) → ((m >> k) ≡ ok tt) ↔ ((m ≡ ok tt) × (k ≡ ok tt))
then_iff (ok tt) k = (λ h. (refl, h), λ h. h.1)
then_iff (err e) k = (λ h. cc, λ h. cc)

-- A chain of two checks passes exactly when what they stand for holds.
pub both {ℓ κ} :
    {P : Type ℓ} {Q : Type κ} {E : Type 0} (m k : Result (Unit {0}) E)
    → (m ≡ ok tt) ↔ P
    → (k ≡ ok tt) ↔ Q
    → ((m >> k) ≡ ok tt) ↔ (P × Q)
both m k p q = (
  λ h. let (a, b) = (then_iff m k).0 h in (p.0 a, q.0 b),
  λ h. (then_iff m k).1 (p.1 h.0, q.1 h.1),
)

pub Result-cases :
    {A E : Type 0} (r : Result A E) → ((a : A) × (r ≡ ok a)) ⊎ ((e : E) × (r ≡ err e))
Result-cases (ok a) = inl (a, refl)
Result-cases (err e) = inr (e, refl)
