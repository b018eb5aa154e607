-- ===== src/Storage/Logs/Bounds.antt =====
-- What `push_bounded` keeps of a log.
use pacinet.Prelude.{
  ℕ, ◌-◌, ◌≤◌, ◌<◌, ◌≡◌, ◌∙◌, true, some, List, [], ◌∷◌, ◌++◌, arith, ltb, length, length-append,
  length-drop, last?, last?-concat, last?-drop, Bool-cases, inl, inr,
}
use pacinet.Storage.Logs.{push_bounded}

module _ {A : Type 0} (limit : ℕ) (x : A) where
  pub push_bounded-le : (xs : List A) → length (push_bounded limit x xs) ≤ limit
  unfolding push_bounded
  push_bounded-le xs = ground (arith, length-drop (length (xs ++ x ∷ []) - limit) (xs ++ x ∷ []))

  -- The newest entry is never the one that goes.
  pub push_bounded-last : (xs : List A) → 0 < limit → last? (push_bounded limit x xs) ≡ some x
  unfolding push_bounded
  push_bounded-last xs h = elim (Bool-cases (ltb limit (length (xs ++ x ∷ [])))) [
    | inl more ↦ rw more (last?-drop _ (xs ++ x ∷ []) (shorter more) ∙ last?-concat xs x)
    | inr less ↦ rw less (last?-concat xs x)
  ]
    where
      shorter :
          ltb limit (length (xs ++ x ∷ [])) ≡ true
          → length (xs ++ x ∷ []) - limit < length (xs ++ x ∷ [])
      shorter more = omega (arith, length-append xs (x ∷ []))
