-- ===== src/Deploy/Node/Guard.antt =====
-- A deployment of one node takes and gives up no deploy guard.
use pacinet.Prelude.{ℕ, String, ◌≡◌, ◌∙◌, arith}
use pacinet.Model.{Node}
use pacinet.Model.State.{NodeState, deploying}
use pacinet.Storage.State.{MemoryStorage}
use pacinet.Storage.Interface.{memory}
use pacinet.Storage.Nodes.{update_node_state}
use pacinet.Storage.Policies.{store_policy, get_policy, get_policy_history}
use pacinet.Storage.Deploys.{record_deployment}
use pacinet.Deploy.Options.{CompileOptions, normalize_options, requested_policy}
use pacinet.Deploy.Node.{
  Env, agent_address, read_reply, deploy_to_node, skip_deploy, send_deploy, start_deploy,
}

guards-update_node_state :
    (k : String) (x : NodeState) (s : MemoryStorage)
    → (update_node_state k x s).1.deploying ≡ s.deploying
unfolding update_node_state
guards-update_node_state k x s = ground arith

guards-send_deploy :
    (env : Env) (node : Node) (y : String) (o : CompileOptions) (v : ℕ) (s : MemoryStorage)
    → (send_deploy memory env node y o v s).1.deploying ≡ s.deploying
unfolding send_deploy record_deployment
guards-send_deploy env node y o v s =
    let k = node.node_id in
    let target = (read_reply env (env.agent (agent_address env node) y o)).0 in
    guards-update_node_state k target (update_node_state k deploying s).1
    ∙ guards-update_node_state k deploying s

guards-start_deploy :
    (env : Env) (node : Node) (y : String) (o : CompileOptions) (s : MemoryStorage)
    → (start_deploy memory env node y o s).1.deploying ≡ s.deploying
unfolding start_deploy store_policy
guards-start_deploy env node y o s =
    guards-send_deploy env node y o _
      (store_policy (requested_policy node.node_id y (env.hash y) env.now o) s).1

pub guards-deploy_to_node :
    (env : Env) (node : Node) (y : String) (o : CompileOptions) (s : MemoryStorage)
    → (deploy_to_node memory env node y o s).1.deploying ≡ s.deploying
unfolding deploy_to_node skip_deploy record_deployment get_policy get_policy_history
guards-deploy_to_node env node y o s =
    ground (arith, guards-start_deploy env node y (normalize_options o) s)
