-- ===== src/Sqlite/Policies.antt =====
-- The relation between the storages after a new policy, and after the removal of a node.
use mathlib.Core.Path.{subst}
use mathlib.Core.List.{append-nil}
use pacinet.Prelude.{
  ℕ, ◌+◌, String, ◌==◌, ◌≡◌, ◌∙◌, inl, inr, refl, sym, ap, eq_iff, [], ◌∷◌, ◌++◌, length,
  Bool-cases, if◌then◌else◌,
}
use pacinet.HashMap.{get, insert, set_remove}
use pacinet.HashMap.Laws.{get-insert, get-remove}
use pacinet.Model.{Policy}
use pacinet.Storage.State.{MemoryStorage}
use pacinet.Storage.Nodes
use pacinet.Storage.Policies.{or_empty, version_of}
use pacinet.Storage.Policies
use pacinet.Storage.Run.Invariant.{IsNumbered}
use pacinet.Storage.Run.Steps.{IsNumbered-concat}
use pacinet.Sqlite.{SqliteStorage, Constraints, open_new, is_node, referring, next_version, rows_of}
use pacinet.Sqlite
use pacinet.Sqlite.Versions.{next_of_IsNumbered, rows_of-append, rows_of-delete}
use pacinet.HashMap.Keyed.{IsKeyedBy-remove}
use pacinet.Sqlite.Machines.{DefinitionJson}
use pacinet.Sqlite.Refines.{Refines, same-insert, same-remove}

module _ (json : DefinitionJson) (q : SqliteStorage) (m : MemoryStorage)
    (r : Refines json q m) where
  pub next_of : (k : String) → next_version k q ≡ length (or_empty (get k m.policy_versions)) + 1
  unfolding next_version
  next_of k =
      next_of_IsNumbered k (rows_of k q.policy_versions) (r.numbered k)
      ∙ ap (λ vs. length vs + 1) (r.versions k)

  -- The rows after a new version of the node of `p`.
  rows_with :
      (p : Policy) (n : ℕ) (k : String)
      → rows_of k (q.policy_versions ++ version_of n p ∷ []) ≡ (
          if p.node_id == k
          then or_empty (get k m.policy_versions) ++ version_of n p ∷ []
          else or_empty (get k m.policy_versions))
  unfolding version_of
  rows_with p n k =
      let split = rows_of-append k q.policy_versions (version_of n p ∷ []) in
      let old = r.versions k in
      elim (Bool-cases (p.node_id == k)) [
        | inl e ↦ rw (split, old, e) refl
        | inr e ↦ rw (split, old, e) (append-nil _)
      ]

  versions_with :
      (p : Policy) (k : String)
      → rows_of k (q.policy_versions ++ version_of (next_version p.node_id q) p ∷ [])
        ≡ or_empty (get k (Policies.store_policy p m).1.policy_versions)
  unfolding Policies.store_policy
  versions_with p k =
      rows_with p (next_version p.node_id q) k ∙ elim (Bool-cases (p.node_id == k)) [
        | inl e ↦
            let own = (eq_iff p.node_id k).0 e in
            rw (get-insert, e, next_of p.node_id)
              (ap
                (λ i.
                  or_empty (get i m.policy_versions)
                  ++ version_of (length (or_empty (get p.node_id m.policy_versions)) + 1) p ∷ [])
                (sym own))
        | inr e ↦ rw (get-insert, e) refl
      ]

  IsNumbered-with :
      (p : Policy) (k : String)
      → IsNumbered k 1
          (rows_of k (q.policy_versions ++ version_of (next_version p.node_id q) p ∷ []))
  unfolding version_of
  IsNumbered-with p k =
      let rows = rows_with p (next_version p.node_id q) k in
      let old = subst (IsNumbered k 1) (r.versions k) (r.numbered k) in
      elim (Bool-cases (p.node_id == k)) [
        | inl e ↦
            let own = (eq_iff p.node_id k).0 e in
            rw (rows, e)
              (IsNumbered-concat k 1 (or_empty (get k m.policy_versions)) _ old
                (next_of p.node_id ∙ ap (λ i. length (or_empty (get i m.policy_versions)) + 1) own)
                own)
        | inr e ↦ rw (rows, e) old
      ]

  -- A new version, and the current policy.
  pub with_policy :
      (p : Policy)
      → Refines json
          (record q {
            policy_versions = q.policy_versions ++ version_of (next_version p.node_id q) p ∷ [];
            policies = insert p.node_id p q.policies;
          })
          (Policies.store_policy p m).1
  unfolding Policies.store_policy
  with_policy p = record {
    nodes = r.nodes;
    rows_keyed = r.rows_keyed;
    nodes_keyed = r.nodes_keyed;
    policies = same-insert q.policies m.policies r.policies p.node_id p;
    versions = versions_with p;
    numbered = IsNumbered-with p;
    counters = r.counters;
    flow_counters = r.flow_counters;
    definitions = r.definitions;
    instances = r.instances;
    templates = r.templates;
    deploying = r.deploying;
  }

  pub without_node :
      (k : String) → Refines json (Sqlite.remove_node k q).1 (Nodes.remove_node k m).1
  unfolding Sqlite.remove_node Nodes.remove_node
  without_node k = record {
    nodes = same-remove q.nodes m.nodes r.nodes k;
    rows_keyed = IsKeyedBy-remove (λ n. n.node_id) k q.nodes r.rows_keyed;
    nodes_keyed = IsKeyedBy-remove (λ n. n.node_id) k m.nodes r.nodes_keyed;
    policies = same-remove q.policies m.policies r.policies k;
    versions = λ j. rows_of-delete k j q.policy_versions ∙ elim (Bool-cases (k == j)) [
      | inl e ↦ simp (get-remove, e) refl
      | inr e ↦ simp (get-remove, e) (r.versions j)
    ];
    numbered = λ j. elim (Bool-cases (k == j)) [
      | inl e ↦ rw (rows_of-delete k j q.policy_versions, e) tt
      | inr e ↦ rw (rows_of-delete k j q.policy_versions, e) (r.numbered j)
    ];
    counters = same-remove q.counters m.counters r.counters k;
    flow_counters = same-remove q.flow_counters m.flow_counters r.flow_counters k;
    definitions = r.definitions;
    instances = r.instances;
    templates = r.templates;
    deploying = ap (set_remove k) r.deploying;
  }
