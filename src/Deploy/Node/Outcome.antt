-- ===== src/Deploy/Node/Outcome.antt =====
-- What a deployment of one node answers and leaves in the store.
use pacinet.Prelude.{ℕ, ◌+◌, length, ne_test, String, ◌≡◌, ◌≢◌, ◌∙◌, refl, eq_iff, arith}
use pacinet.HashMap.{get}
use pacinet.HashMap.Laws.{get-insert}
use pacinet.Model.{Node, Policy}
use pacinet.Model.State.{NodeState, deploying}
use pacinet.Model.Deployment.{is_success}
use pacinet.Storage.State.{MemoryStorage}
use pacinet.Storage.Interface.{Storage, memory}
use pacinet.Storage.Nodes.{update_node_state}
use pacinet.Storage.Nodes.Changes.{update_node_state_lem}
use pacinet.Storage.Policies.{or_empty, store_policy, get_policy, get_policy_history}
use pacinet.Storage.Deploys.{record_deployment}
use pacinet.Deploy.Options.{CompileOptions, normalize_options, requested_policy}
use pacinet.Deploy.Node.{
  Env, agent_address, read_reply, deploy_to_node, skip_deploy, send_deploy, start_deploy,
}

-- On any storage, the outcome is a success exactly if the result that it carries, and that is
-- recorded, is `Success`.
pub deploy_to_node-success :
    (st : Storage) (env : Env) (node : Node) (rules_yaml : String) (o : CompileOptions)
    (s : st.State)
    → (deploy_to_node st env node rules_yaml o s).0.success
      ≡ is_success (deploy_to_node st env node rules_yaml o s).0.result
unfolding deploy_to_node skip_deploy start_deploy send_deploy
deploy_to_node-success st env node y o s = ground arith

-- What the store holds of the node `j`, but for its deployments.
abbrev pub SameAt : String → MemoryStorage → MemoryStorage → Type 0
SameAt j s t =
    (get j t.nodes ≡ get j s.nodes)
    × (get j t.policies ≡ get j s.policies)
    × (get j t.policy_versions ≡ get j s.policy_versions)

pub same_trans : (j : String) (s t u : MemoryStorage) → SameAt j s t → SameAt j t u → SameAt j s u
same_trans j s t u (a, b, c) (d, e, f) = (d ∙ a, e ∙ b, f ∙ c)

same-update_node_state :
    (j k : String) (x : NodeState) (s : MemoryStorage)
    → k ≢ j
    → SameAt j s (update_node_state k x s).1
unfolding update_node_state
same-update_node_state j k x s h = ground (arith, eq_iff k j, (update_node_state_lem k j x s).1)

same-store_policy :
    (j : String) (p : Policy) (s : MemoryStorage) → p.node_id ≢ j → SameAt j s (store_policy p s).1
unfolding store_policy
same-store_policy j p s h = simp (get-insert, ne_test p.node_id j h) (refl, refl, refl)

same-send_deploy :
    (env : Env) (node : Node) (y : String) (o : CompileOptions) (v : ℕ) (j : String)
    (s : MemoryStorage)
    → node.node_id ≢ j
    → SameAt j s (send_deploy memory env node y o v s).1
unfolding send_deploy record_deployment
same-send_deploy env node y o v j s h =
    let k = node.node_id in
    let s₁ = (update_node_state k deploying s).1 in
    let target = (read_reply env (env.agent (agent_address env node) y o)).0 in
    same_trans j s s₁ (update_node_state k target s₁).1 (same-update_node_state j k deploying s h)
      (same-update_node_state j k target s₁ h)

same-start_deploy :
    (env : Env) (node : Node) (y : String) (o : CompileOptions) (j : String) (s : MemoryStorage)
    → node.node_id ≢ j
    → SameAt j s (start_deploy memory env node y o s).1
unfolding start_deploy requested_policy store_policy
same-start_deploy env node y o j s h =
    let p = requested_policy node.node_id y (env.hash y) env.now o in
    same_trans j s (store_policy p s).1
      (send_deploy memory env node y o (length (or_empty (get p.node_id s.policy_versions)) + 1)
        (store_policy p s).1).1
      (same-store_policy j p s h) (same-send_deploy env node y o _ j (store_policy p s).1 h)

-- A deployment of one node leaves the record, the policy and the history of every other node.
pub deploy_to_node-others :
    (env : Env) (node : Node) (rules_yaml : String) (o : CompileOptions) (j : String)
    (s : MemoryStorage)
    → node.node_id ≢ j
    → SameAt j s (deploy_to_node memory env node rules_yaml o s).1
unfolding deploy_to_node skip_deploy record_deployment get_policy get_policy_history
deploy_to_node-others env node y o j s h =
    ground (arith, same-start_deploy env node y (normalize_options o) j s h)
