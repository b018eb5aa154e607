-- ===== src/Storage/Policies/History.antt =====
-- Storing a policy, and reading it back with its history.
use mathlib.Core.Path.{ap₂}
use mathlib.Core.List.{reverse, reverse-append}
use pacinet.Prelude.{
  ℕ, suc, String, ◌==◌, ◌≡◌, eq_iff, refl, some, List, [], ◌∷◌, ◌++◌, ok, take, if◌then◌else◌,
  Bool-cases, inl, inr, ap, ◌∙◌,
}
use pacinet.HashMap.{get}
use pacinet.HashMap.Laws.{get-insert}
use pacinet.Model.{Policy, PolicyVersion}
use pacinet.Storage.State.{MemoryStorage, Answer, listed}
use pacinet.Storage.Policies.{version_of, or_empty, store_policy, get_policy, get_policy_history}

newest_first :
    (limit : ℕ) (v : PolicyVersion) (vs : List PolicyVersion)
    → take (suc limit) (reverse (vs ++ v ∷ [])) ≡ v ∷ take limit (reverse vs)
newest_first limit v vs = rw (reverse-append vs (v ∷ []))

version_of_ok : {a b : ℕ} → ◌≡◌ {A = Answer ℕ} (ok a) (ok b) → a ≡ b
version_of_ok h = cc

-- Storing a policy makes it the node's current one and puts it in front of the node's history,
-- under the number that the call answers; the policies and histories of other nodes stay.
pub store_policy_lem :
    (p : Policy) (k : String) (limit v : ℕ) (s : MemoryStorage)
    → (store_policy p s).0 ≡ ok v
    → let t = (store_policy p s).1 in
      (get_policy k t ≡ (if p.node_id == k then ok (some p) else get_policy k s))
      × (listed (get_policy_history k (suc limit) t) ≡ (
          if p.node_id == k
          then version_of v p ∷ listed (get_policy_history k limit s)
          else listed (get_policy_history k (suc limit) s)))
unfolding store_policy get_policy get_policy_history
store_policy_lem p k limit v s h = elim (Bool-cases (p.node_id == k)) [
  | inl e ↦
      simp (get-insert, e)
        (
          refl,
          newest_first limit _ (or_empty (get p.node_id s.policy_versions))
              ∙ ap₂ (λ w vs. version_of w p ∷ take limit (reverse (or_empty vs))) (version_of_ok h)
                  (ap (λ j. get j s.policy_versions) ((eq_iff p.node_id k).0 e)),
        )
  | inr e ↦ simp (get-insert, e) (refl, refl)
]
