-- ===== src/Sqlite/Versions.antt =====
-- The rows of the versions of one node, in the order of their numbers.
use mathlib.Core.List.{reverse, reverse-cons, append_assoc}
use pacinet.Prelude.{
  ℕ, suc, ◌+◌, ◌<◌, String, ◌==◌, ◌≡◌, ◌∙◌, refl, sym, ap, eq_iff, none, some, List, [], ◌∷◌, ◌++◌,
  length, keep, not, arith, ltb, lt→ltb, true, if◌then◌else◌,
}
use pacinet.Model.{PolicyVersion}
use pacinet.Storage.Run.Invariant.{IsNumbered}
use pacinet.Sqlite.{max_version, insert_descending, order_descending, rows_of}

max_version-IsNumbered :
    (k : String) (n : ℕ) (v : PolicyVersion) (vs : List PolicyVersion)
    → IsNumbered k n (v ∷ vs)
    → max_version (v ∷ vs) ≡ some (n + length vs)
unfolding max_version
max_version-IsNumbered k n v [] h = ap some (omega (arith, h.0))
max_version-IsNumbered k n v (w ∷ vs) h =
    let ih = max_version-IsNumbered k (suc n) w vs h.2 in ground (arith, ih, h.0)

-- The number after the last one.
pub next_of_IsNumbered :
    (k : String) (vs : List PolicyVersion)
    → IsNumbered k 1 vs
    → elim (max_version vs) [ none ↦ 1 | some n ↦ n + 1 ] ≡ length vs + 1
unfolding max_version
next_of_IsNumbered k [] h = refl
next_of_IsNumbered k (v ∷ vs) h = rw (max_version-IsNumbered k 1 v vs h) (omega arith)

-- All numbers of the rows stay below `n`, the first one of a non-empty list suffices here.
abbrev HeadBelow : ℕ → List PolicyVersion → Type 0
HeadBelow n [] = Unit
HeadBelow n (v ∷ vs) = v.version < n

turn :
    (v : PolicyVersion) (vs ws : List PolicyVersion) → reverse vs ++ v ∷ ws ≡ reverse (v ∷ vs) ++ ws
turn v vs ws = rw (reverse-cons v vs) (sym (append_assoc (reverse vs) (v ∷ []) ws))

-- Rows in the order of their numbers are turned round.
pub order_descending-IsNumbered :
    (k : String) (n : ℕ) (vs ordered : List PolicyVersion)
    → IsNumbered k n vs
    → HeadBelow n ordered
    → order_descending vs ordered ≡ reverse vs ++ ordered
unfolding order_descending insert_descending
order_descending-IsNumbered k n [] ordered h b = refl
order_descending-IsNumbered k n (v ∷ vs) [] h b =
    let bound : v.version < suc n = omega (arith, h.0) in
    order_descending-IsNumbered k (suc n) vs (v ∷ []) h.2 bound ∙ turn v vs []
order_descending-IsNumbered k n (v ∷ vs) (w ∷ ordered) h b =
    let bound : v.version < suc n = omega (arith, h.0) in
    let first : ltb w.version v.version ≡ true =
      lt→ltb w.version v.version (omega (arith, h.0, b)) in
    rw (first, insert_descending)
      (order_descending-IsNumbered k (suc n) vs (v ∷ w ∷ ordered) h.2 bound
        ∙ turn v vs (w ∷ ordered))

-- Rows of other nodes, and rows at the end.
pub rows_of-append :
    (k : String) (vs ws : List PolicyVersion) → rows_of k (vs ++ ws) ≡ rows_of k vs ++ rows_of k ws
rows_of-append k [] ws = refl
rows_of-append k (v ∷ vs) ws = ground (arith, rows_of-append k vs ws)

-- Deleting the rows of one node leaves those of the others.
pub rows_of-delete :
    (k j : String) (vs : List PolicyVersion)
    → rows_of j (keep (λ v. not (v.node_id == k)) vs) ≡ (if k == j then [] else rows_of j vs)
rows_of-delete k j [] = ground arith
rows_of-delete k j (v ∷ vs) =
    ground (arith, rows_of-delete k j vs, eq_iff v.node_id k, eq_iff v.node_id j, eq_iff k j)
