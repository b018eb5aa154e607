-- ===== src/Deploy/Fleet/Guards.antt =====
-- The deploy guards, and the nodes that a deployment to several nodes does not concern.
use pacinet.Prelude.{
  ℕ, suc, String, ◌≡◌, ◌≢◌, ◌∙◌, ap, refl, eq_iff, List, [], ◌∷◌, ok, err, All, arith, Result-cases,
  Bool-cases, inl, inr, if◌then◌else◌,
}
use pacinet.HashMap.{set_contains}
use pacinet.Error.{concurrent_deploy}
use pacinet.Model.{Node}
use pacinet.Storage.State.{MemoryStorage}
use pacinet.Storage.Interface.{memory}
use pacinet.Storage.Deploys.{begin_deploy, end_deploy}
use pacinet.Storage.Deploys.Guard.{begin_deploy_lem, end_deploy_lem}
use pacinet.Deploy.Options.{CompileOptions}
use pacinet.Deploy.Node.{Env, deploy_to_node}
use pacinet.Deploy.Node.Guard.{guards-deploy_to_node}
use pacinet.Deploy.Node.Outcome.{SameAt, same_trans, deploy_to_node-others}
use pacinet.Deploy.Fleet.{Tally, deploy_one, deploy_from, deploy_to_nodes}

-- One turn of the loop gives up the guard that it took.
guards-deploy_one :
    (envs : ℕ → Env) (y : String) (o : CompileOptions) (i : ℕ) (node : Node) (t : Tally)
    (j : String) (s : MemoryStorage)
    → set_contains j (deploy_one memory envs y o i node t s).1.deploying
      ≡ set_contains j s.deploying
unfolding deploy_one
guards-deploy_one envs y o i node t j s =
    let k = node.node_id in
    let s₁ = (begin_deploy k s).1 in
    let s₂ = (deploy_to_node memory (envs i) node y o s₁).1 in
    let (g, taken) = begin_deploy_lem k j s in
    elim (Bool-cases (set_contains k s.deploying)) [
      | inl e ↦
          let refused = g ∙ ap (λ b. if b then err (concurrent_deploy k) else ok tt) e in
          rw (refused, deploy_one) ground (arith, taken, e, eq_iff k j)
      | inr e ↦
          let granted = g ∙ ap (λ b. if b then err (concurrent_deploy k) else ok tt) e in
          let kept : set_contains j s₂.deploying ≡ set_contains j s₁.deploying =
            ap (set_contains j) (guards-deploy_to_node (envs i) node y o s₁) in
          rw (granted, deploy_one) ground
            (arith, (end_deploy_lem k j s₂).1, kept, taken, e, eq_iff k j)
    ]

same-deploy_one :
    (envs : ℕ → Env) (y : String) (o : CompileOptions) (i : ℕ) (node : Node) (t : Tally)
    (j : String) (s : MemoryStorage)
    → node.node_id ≢ j
    → SameAt j s (deploy_one memory envs y o i node t s).1
unfolding deploy_one begin_deploy end_deploy
same-deploy_one envs y o i node t j s h =
    let s₁ = (begin_deploy node.node_id s).1 in
    elim (Result-cases (begin_deploy node.node_id s).0) [
      | inl (a, e) ↦ rw (e, deploy_one) (deploy_to_node-others (envs i) node y o j s₁ h)
      | inr (x, e) ↦ rw (e, deploy_one) (refl, refl, refl)
    ]

guards-deploy_from :
    (envs : ℕ → Env) (y : String) (o : CompileOptions) (i : ℕ) (nodes : List Node) (t : Tally)
    (j : String) (s : MemoryStorage)
    → set_contains j (deploy_from memory envs y o i nodes t s).1.deploying
      ≡ set_contains j s.deploying
unfolding deploy_from
guards-deploy_from envs y o i [] t j s = refl
guards-deploy_from envs y o i (n ∷ ns) t j s =
    let (t₁, s₁) = deploy_one memory envs y o i n t s in
    guards-deploy_from envs y o (suc i) ns t₁ j s₁ ∙ guards-deploy_one envs y o i n t j s

-- A deployment to several nodes leaves every deploy guard as it was, also those of its nodes.
pub deploy_to_nodes-guards :
    (envs : ℕ → Env) (rules_yaml : String) (o : CompileOptions) (nodes : List Node) (j : String)
    (s : MemoryStorage)
    → set_contains j (deploy_to_nodes memory envs rules_yaml o nodes s).1.deploying
      ≡ set_contains j s.deploying
unfolding deploy_to_nodes
deploy_to_nodes-guards envs y o nodes j s = guards-deploy_from envs y o 0 nodes _ j s

frame-deploy_from :
    (envs : ℕ → Env) (y : String) (o : CompileOptions) (i : ℕ) (nodes : List Node) (t : Tally)
    (j : String) (s : MemoryStorage)
    → All (λ (n : Node). n.node_id ≢ j) nodes
    → SameAt j s (deploy_from memory envs y o i nodes t s).1
unfolding deploy_from
frame-deploy_from envs y o i [] t j s h = (refl, refl, refl)
frame-deploy_from envs y o i (n ∷ ns) t j s h =
    let (t₁, s₁) = deploy_one memory envs y o i n t s in
    same_trans j s s₁ (deploy_from memory envs y o (suc i) ns t₁ s₁).1
      (same-deploy_one envs y o i n t j s h.0) (frame-deploy_from envs y o (suc i) ns t₁ j s₁ h.1)

-- A deployment to several nodes leaves the record, the policy and the history of every node that
-- is not among them.
pub deploy_to_nodes-frame :
    (envs : ℕ → Env) (rules_yaml : String) (o : CompileOptions) (nodes : List Node) (j : String)
    (s : MemoryStorage)
    → All (λ (n : Node). n.node_id ≢ j) nodes
    → SameAt j s (deploy_to_nodes memory envs rules_yaml o nodes s).1
unfolding deploy_to_nodes
deploy_to_nodes-frame envs y o nodes j s h = frame-deploy_from envs y o 0 nodes _ j s h
