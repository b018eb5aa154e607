-- ===== src/Tests/Deployments.antt =====
-- The theorems about deployments at concrete inputs.
use mathlib.Core.Option
use pacinet.Prelude.{◌+◌, ◌≡◌, ◌↔◌, refl, false, not, [], ◌∷◌, map, length, keep, arith, ok}
use pacinet.HashMap.{get, set_contains}
use pacinet.Model.State.{online, active}
use pacinet.Fsm.Instance.{NodeActionResult}
use pacinet.Storage.State.{new}
use pacinet.Storage.Interface.{memory}
use pacinet.Storage.Nodes.{register_node}
use pacinet.Storage.Run.{Call, run, step}
use pacinet.Storage.Run.Preserves.{run-IsValid}
use pacinet.Deploy.Options.{default_options, normalize_options, require, ensure_node_capabilities}
use pacinet.Deploy.Options.Laws.{IsCapable, ensure_node_capabilities_iff}
use pacinet.Deploy.Node.{deploy_to_node, is_no_op}
use pacinet.Deploy.Node.Outcome.{SameAt}
use pacinet.Deploy.Node.Stored.{IsStored, deploy_to_node-IsStored}
use pacinet.Deploy.Node.Settled.{settled, deploy_to_node-settled}
use pacinet.Deploy.Fleet.{deploy_to_nodes}
use pacinet.Deploy.Fleet.Counts.{deploy_to_nodes-counts}
use pacinet.Deploy.Fleet.Guards.{deploy_to_nodes-guards, deploy_to_nodes-frame}
use pacinet.Tests.Data.{node, calls, fleet, env, a_is_not_b}

ensure_node_capabilities_iff_example :
    (ensure_node_capabilities (node "b" online 9) default_options ≡ ok tt)
    ↔ IsCapable (node "b" online 9) default_options
ensure_node_capabilities_iff_example =
    ensure_node_capabilities_iff (node "b" online 9) default_options

capable : ensure_node_capabilities (node "b" online 900) (normalize_options default_options) ≡ ok tt
unfolding ensure_node_capabilities normalize_options require
capable = refl

deploy_to_node-IsStored_example :
    let r = deploy_to_node memory env (node "b" online 900) "r" default_options fleet in
    IsStored env "b" "r" (normalize_options default_options) r.0.version r.1
deploy_to_node-IsStored_example =
    deploy_to_node-IsStored env (node "b" online 900) "r" default_options fleet (run-IsValid calls)
      capable

fresh :
    is_no_op memory env
      (node "b" online 900)
      "r"
      (normalize_options default_options)
      (get "b" (run (Call.register_node (node "b" online 900) ∷ []) new).policies)
    ≡ false
unfolding is_no_op run step register_node get
fresh = refl

deploy_to_node-settled_example :
    let s = run (Call.register_node (node "b" online 900) ∷ []) new in
    let r = deploy_to_node memory env (node "b" online 900) "r" default_options s in
    get "b" r.1.nodes ≡ Option.map (settled r.0.success) (get "b" s.nodes)
deploy_to_node-settled_example =
    deploy_to_node-settled env (node "b" online 900) "r" default_options
      (run (Call.register_node (node "b" online 900) ∷ []) new) capable fresh

deploy_to_nodes-counts_example :
    let r =
      (deploy_to_nodes memory
        (λ i. env)
        "r"
        default_options
        (node "a" active 100 ∷ node "b" online 900 ∷ [])
        fleet).0 in
    (map (λ (x : NodeActionResult). x.node_id) r.node_results ≡ "a" ∷ "b" ∷ [])
    × (r.succeeded ≡ length (keep (λ (x : NodeActionResult). x.success) r.node_results))
    × (r.failed ≡ length (keep (λ (x : NodeActionResult). not x.success) r.node_results))
    × (r.total ≡ 2)
    × (r.succeeded + r.failed ≡ r.total)
deploy_to_nodes-counts_example =
    deploy_to_nodes-counts memory (λ i. env) "r" default_options
      (node "a" active 100 ∷ node "b" online 900 ∷ []) fleet (omega arith)

deploy_to_nodes-guards_example :
    set_contains "a"
      (deploy_to_nodes memory
        (λ i. env)
        "r"
        default_options
        (node "a" active 100 ∷ [])
        fleet).1.deploying
    ≡ set_contains "a" fleet.deploying
deploy_to_nodes-guards_example =
    deploy_to_nodes-guards (λ i. env) "r" default_options (node "a" active 100 ∷ []) "a" fleet

deploy_to_nodes-frame_example :
    SameAt "b" fleet
      (deploy_to_nodes memory (λ i. env) "r" default_options (node "a" active 100 ∷ []) fleet).1
deploy_to_nodes-frame_example =
    deploy_to_nodes-frame (λ i. env) "r" default_options (node "a" active 100 ∷ []) "b" fleet
      (a_is_not_b, tt)
