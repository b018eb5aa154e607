-- ===== src/Deploy/Node/Settled.antt =====
-- The state of a node after its deployment.
use mathlib.Core.Option
use mathlib.Core.Path.{subst}
use pacinet.Prelude.{
  ℕ, String, ◌≡◌, ◌∙◌, sym, ap, refl, eq_refl, Bool, false, Option, none, some, arith, ok,
  if◌then◌else◌,
}
use pacinet.HashMap.{get}
use pacinet.Model.{Node}
use pacinet.Model.State.{NodeState, deploying, active, error, valid_transitions, can_transition_to}
use pacinet.Model.Deployment.{is_success}
use pacinet.Storage.State.{MemoryStorage}
use pacinet.Storage.Interface.{memory}
use pacinet.Storage.Nodes.{update_node_state}
use pacinet.Storage.Nodes.Changes.{changed, update_node_state_lem}
use pacinet.Storage.Policies.{store_policy}
use pacinet.Storage.Deploys.{record_deployment}
use pacinet.Deploy.Options.{
  CompileOptions, normalize_options, ensure_node_capabilities, requested_policy,
}
use pacinet.Deploy.Node.{
  Env, AgentReply, agent_address, read_reply, deploy_to_node, skip_deploy, send_deploy,
  start_deploy, is_no_op,
}
use pacinet.Deploy.Node.Stored.{allowed}

-- What the end of a deployment makes of a node. A node that is registered or offline stays so.
abbrev pub settled : Bool → Node → Node
settled is_deployed n = elim n.state [
  | NodeState.registered ↦ n
  | NodeState.offline ↦ n
  | _ ↦ record n { state = if is_deployed then active else error }
]

target_of_reply :
    (env : Env) (reply : AgentReply)
    → (read_reply env reply).0 ≡ (if is_success (read_reply env reply).3 then active else error)
unfolding read_reply
target_of_reply env reply = ground arith

changed_twice :
    (b : Bool) (n : Node)
    → changed (if b then active else error) (changed deploying n) ≡ settled b n
unfolding can_transition_to valid_transitions
changed_twice b n = ground arith

both_changes :
    (b : Bool) (m : Option Node)
    → Option.map (changed (if b then active else error)) (Option.map (changed deploying) m)
      ≡ Option.map (settled b) m
both_changes b none = refl
both_changes b (some n) = ap some (changed_twice b n)

get-update_node_state :
    (k : String) (x : NodeState) (s : MemoryStorage)
    → get k (update_node_state k x s).1.nodes ≡ Option.map (changed x) (get k s.nodes)
get-update_node_state k x s = (update_node_state_lem k k x s).1 ∙ simp (eq_refl)

settled-send_deploy :
    (env : Env) (node : Node) (y : String) (o : CompileOptions) (v : ℕ) (s : MemoryStorage)
    → let r = send_deploy memory env node y o v s in
      get node.node_id r.1.nodes ≡ Option.map (settled r.0.success) (get node.node_id s.nodes)
unfolding send_deploy record_deployment
settled-send_deploy env node y o v s =
    let k = node.node_id in
    let s₁ = (update_node_state k deploying s).1 in
    let reply = env.agent (agent_address env node) y o in
    let b = is_success (read_reply env reply).3 in
    ap (λ x. get k (update_node_state k x s₁).1.nodes) (target_of_reply env reply)
    ∙ get-update_node_state k (if b then active else error) s₁
    ∙ ap (Option.map (changed (if b then active else error))) (get-update_node_state k deploying s)
    ∙ both_changes b (get k s.nodes)

settled-start_deploy :
    (env : Env) (node : Node) (y : String) (o : CompileOptions) (s : MemoryStorage)
    → let r = start_deploy memory env node y o s in
      get node.node_id r.1.nodes ≡ Option.map (settled r.0.success) (get node.node_id s.nodes)
unfolding start_deploy store_policy
settled-start_deploy env node y o s =
    settled-send_deploy env node y o _
      (store_policy (requested_policy node.node_id y (env.hash y) env.now o) s).1

-- A deployment that the node's capabilities allow and that is not skipped leaves the node `Active` if
-- it answers a success and in `Error` if not; but a node that was registered or offline
-- stays as it was, whatever is answered, for it may not go to `Deploying`.
pub deploy_to_node-settled :
    (env : Env) (node : Node) (rules_yaml : String) (o : CompileOptions) (s : MemoryStorage)
    → ensure_node_capabilities node (normalize_options o) ≡ ok tt
    → is_no_op memory env node rules_yaml (normalize_options o) (get node.node_id s.policies)
      ≡ false
    → let r = deploy_to_node memory env node rules_yaml o s in
      get node.node_id r.1.nodes ≡ Option.map (settled r.0.success) (get node.node_id s.nodes)
deploy_to_node-settled env node y o s c e =
    let n = normalize_options o in
    subst
      (λ r.
        get node.node_id r.1.nodes ≡ Option.map (settled r.0.success) (get node.node_id s.nodes))
      (sym (
        allowed env node y o s c
        ∙ ap
            (λ b. if b then skip_deploy memory env node y s else start_deploy memory env node y n s)
            e))
      (settled-start_deploy env node y n s)
