-- ===== src/Storage/Run/Steps.antt =====
-- The methods that write more than one field, or a whole map, keep their part of the invariant.
use pacinet.Prelude.{
  ℕ, suc, String, ◌==◌, ◌≡◌, some, none, List, [], ◌∷◌, ◌++◌, length, last?, arith, Option-cases,
  Bool-cases, inl, inr, refl, ◌+◌, last?-concat, length-append,
}
use pacinet.HashMap.{HashMap, get, remove}
use pacinet.HashMap.Laws.{
  IsFunctional, Entries, get-insert, get-remove, insert-IsFunctional, remove-IsFunctional,
  Entries-insert, Entries-remove, Entries-get,
}
use pacinet.HashMap.Keyed.{IsKeyedBy, IsKeyedBy-insert, IsKeyedBy-remove}
use pacinet.Model.{Node, Policy, PolicyVersion, DateTime, Duration}
use pacinet.Storage.State.{MemoryStorage}
use pacinet.Storage.Policies.{version_of, or_empty, store_policy}
use pacinet.Storage.Nodes.{mark_stale}
use pacinet.Storage.Run.Invariant.{IsPolicyStore, IsNumbered}

pub IsNumbered-concat :
    (k : String) (n : ℕ) (vs : List PolicyVersion) (v : PolicyVersion)
    → IsNumbered k n vs
    → v.version ≡ length vs + n
    → v.node_id ≡ k
    → IsNumbered k n (vs ++ v ∷ [])
IsNumbered-concat k n [] v h e q = (omega arith, q, tt)
IsNumbered-concat k n (x ∷ vs) v h e q =
    (h.0, h.1, IsNumbered-concat k (suc n) vs v h.2 (omega arith) q)

pub IsNumbered-or_empty :
    (k : String) (vs : HashMap (List PolicyVersion))
    → Entries (λ j ws. IsNumbered j 1 ws) vs
    → IsNumbered k 1 (or_empty (get k vs))
IsNumbered-or_empty k vs h = elim (Option-cases (get k vs)) [
  | inl e ↦ rw e tt
  | inr (ws, e) ↦ rw e (Entries-get (λ j xs. IsNumbered j 1 xs) k vs h e)
]

newest :
    (vs : List PolicyVersion) (p : Policy)
    → last? (vs ++ version_of (length vs + 1) p ∷ [])
      ≡ some (version_of (length (vs ++ version_of (length vs + 1) p ∷ [])) p)
newest vs p = rw (last?-concat, length-append)

pub store_policy-IsPolicyStore :
    (p : Policy) (s : MemoryStorage)
    → IsPolicyStore s.policies s.policy_versions
    → IsPolicyStore (store_policy p s).1.policies (store_policy p s).1.policy_versions
unfolding store_policy
store_policy-IsPolicyStore p s h = record {
  policies_keyed = IsKeyedBy-insert (λ q. q.node_id) p.node_id p s.policies refl h.policies_keyed;
  versions_functional = insert-IsFunctional p.node_id _ s.policy_versions h.versions_functional;
  numbered =
      Entries-insert (λ k vs. IsNumbered k 1 vs) p.node_id _ s.policy_versions
        (IsNumbered-concat p.node_id 1 (or_empty (get p.node_id s.policy_versions)) _
          (IsNumbered-or_empty p.node_id s.policy_versions h.numbered) refl refl)
        h.numbered;
  agree = λ k. elim (Bool-cases (p.node_id == k)) [
    | inl e ↦ simp (get-insert, e) (newest (or_empty (get p.node_id s.policy_versions)) p)
    | inr e ↦ simp (get-insert, e) (h.agree k)
  ];
}

pub remove-IsPolicyStore :
    (k : String) (ps : HashMap Policy) (vs : HashMap (List PolicyVersion))
    → IsPolicyStore ps vs
    → IsPolicyStore (remove k ps) (remove k vs)
remove-IsPolicyStore k ps vs h = record {
  policies_keyed = IsKeyedBy-remove (λ q. q.node_id) k ps h.policies_keyed;
  versions_functional = remove-IsFunctional k vs h.versions_functional;
  numbered = Entries-remove (λ j ws. IsNumbered j 1 ws) k vs h.numbered;
  agree = λ j. elim (Bool-cases (k == j)) [
    | inl e ↦ simp (get-remove, e) tt
    | inr e ↦ simp (get-remove, e) (h.agree j)
  ];
}

-- The loop of `mark_stale_nodes` leaves every key where it is.
get-mark_stale-none :
    (now : DateTime) (d : Duration) (k : String) (m : HashMap Node)
    → get k m ≡ none
    → get k (mark_stale now d m).1 ≡ none
unfolding mark_stale get
get-mark_stale-none now d k [] h = refl
get-mark_stale-none now d k ((j, n) ∷ m) h = ground (arith, get-mark_stale-none now d k m)

mark_stale-IsFunctional :
    (now : DateTime) (d : Duration) (m : HashMap Node)
    → IsFunctional m
    → IsFunctional (mark_stale now d m).1
unfolding mark_stale
mark_stale-IsFunctional now d [] h = tt
mark_stale-IsFunctional now d ((j, n) ∷ m) h =
    ground (arith, get-mark_stale-none now d j m h.0, mark_stale-IsFunctional now d m h.1)

mark_stale-keyed :
    (now : DateTime) (d : Duration) (m : HashMap Node)
    → Entries (λ k n. n.node_id ≡ k) m
    → Entries (λ k n. n.node_id ≡ k) (mark_stale now d m).1
unfolding mark_stale
mark_stale-keyed now d [] h = tt
mark_stale-keyed now d ((j, n) ∷ m) h = ground (arith, mark_stale-keyed now d m h.1)

pub mark_stale-IsKeyedBy :
    (now : DateTime) (d : Duration) (m : HashMap Node)
    → IsKeyedBy (λ n. n.node_id) m
    → IsKeyedBy (λ n. n.node_id) (mark_stale now d m).1
mark_stale-IsKeyedBy now d m h = record {
  functional = mark_stale-IsFunctional now d m h.functional;
  keyed = mark_stale-keyed now d m h.keyed;
}
