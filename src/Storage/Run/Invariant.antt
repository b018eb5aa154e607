-- ===== src/Storage/Run/Invariant.antt =====
-- What holds of a `MemoryStorage` between two calls.
use pacinet.Prelude.{ℕ, suc, String, ◌≡◌, ◌≤◌, Option, some, none, List, [], ◌∷◌, length, last?}
use pacinet.HashMap.{HashMap, get}
use pacinet.HashMap.Laws.{IsFunctional, Entries}
use pacinet.HashMap.Keyed.{IsKeyedBy}
use pacinet.Model.{Policy, PolicyVersion}
use pacinet.Storage.State.{MemoryStorage, max_memory_events, max_memory_audit}
use pacinet.Storage.Policies.{version_of}

-- The versions of a node `k`, numbered from `n` on.
abbrev pub IsNumbered : String → ℕ → List PolicyVersion → Type 0
IsNumbered k n [] = Unit
IsNumbered k n (v ∷ vs) = (v.version ≡ n) × (v.node_id ≡ k) × IsNumbered k (suc n) vs

-- The current policy and the history of a node: both absent, or the policy is the newest version.
abbrev pub Agree : Option Policy → Option (List PolicyVersion) → Type 0
Agree none none = Unit
Agree (some p) (some vs) = last? vs ≡ some (version_of (length vs) p)
Agree _ _ = ⊥

pub record IsPolicyStore (policies : HashMap Policy) (versions : HashMap (List PolicyVersion))
    : Type 0 where
  pub policies_keyed : IsKeyedBy (λ p. p.node_id) policies
  pub versions_functional : IsFunctional versions
  pub numbered : Entries (λ k vs. IsNumbered k 1 vs) versions
  pub agree : (k : String) → Agree (get k policies) (get k versions)

pub record IsValid (s : MemoryStorage) : Type 0 where
  pub nodes : IsKeyedBy (λ n. n.node_id) s.nodes
  pub policies : IsPolicyStore s.policies s.policy_versions
  pub definitions : IsKeyedBy (λ d. d.name) s.fsm_definitions
  pub instances : IsKeyedBy (λ i. i.instance_id) s.fsm_instances
  pub events_bounded : length s.events ≤ max_memory_events
  pub audit_bounded : length s.audit_log ≤ max_memory_audit
