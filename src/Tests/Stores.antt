-- ===== src/Tests/Stores.antt =====
-- The theorems about the memory storage and the node states at concrete inputs.
use mathlib.Core.Option
use pacinet.Prelude.{ℕ, ◌≡◌, ◌↔◌, refl, false, none, some, [], ◌∷◌, IsIn, ok, err}
use pacinet.HashMap.{HashMap, get, set_contains}
use pacinet.Error.{concurrent_deploy}
use pacinet.Model.State.{online, deploying, active}
use pacinet.Storage.State.{MemoryStorage, new, listed}
use pacinet.Storage.Nodes.{
  remove_node, get_node, get_counters, get_flow_counters, update_node_state, mark_stale_nodes,
}
use pacinet.Storage.Nodes.Changes.{
  change_answer, changed, update_node_state_lem, remove_node_forgets, swept, IsStale,
  mark_stale_nodes_lem,
}
use pacinet.Storage.Policies.{version_of, store_policy, get_policy, get_policy_history}
use pacinet.Storage.Policies.History.{store_policy_lem}
use pacinet.Storage.Deploys.{begin_deploy, end_deploy, get_deployments}
use pacinet.Storage.Deploys.Guard.{begin_deploy_exclusive, end_deploy_lem}
use pacinet.Storage.Run.{Call, run}
use pacinet.Storage.Run.Invariant.{IsValid}
use pacinet.Storage.Run.Preserves.{run-IsValid}
use pacinet.Tests.Data.{node, policy, event, calls, fleet, b_is_not_a}

run-IsValid_example : IsValid fleet
run-IsValid_example = run-IsValid calls

begin_deploy_exclusive_example :
    (begin_deploy "a"
      (run (Call.begin_deploy "b" ∷ Call.end_deploy "b" ∷ []) (begin_deploy "a" fleet).1)).0
    ≡ err (concurrent_deploy "a")
begin_deploy_exclusive_example =
    begin_deploy_exclusive "a" (Call.begin_deploy "b" ∷ Call.end_deploy "b" ∷ []) fleet
      (tt, (b_is_not_a, tt))

end_deploy_lem_example :
    ((begin_deploy "a" (end_deploy "a" fleet)).0 ≡ ok tt)
    × (set_contains "b" (end_deploy "a" fleet).deploying ≡ set_contains "b" fleet.deploying)
end_deploy_lem_example = end_deploy_lem "a" "b" fleet

store_policy_lem_example :
    let t = (store_policy (policy "a" "rules") new).1 in
    (get_policy "a" t ≡ ok (some (policy "a" "rules")))
    × (listed (get_policy_history "a" 1 t)
        ≡ version_of 1 (policy "a" "rules") ∷ listed (get_policy_history "a" 0 new))
unfolding store_policy get
store_policy_lem_example = store_policy_lem (policy "a" "rules") "a" 0 1 new refl

update_node_state_lem_example :
    ((update_node_state "a" deploying fleet).0 ≡ change_answer deploying (get "a" fleet.nodes))
    × (get "a" (update_node_state "a" deploying fleet).1.nodes
        ≡ Option.map (changed deploying) (get "a" fleet.nodes))
update_node_state_lem_example = update_node_state_lem "a" "a" deploying fleet

remove_node_forgets_example :
    let t = (remove_node "a" fleet).1 in
    (get_node "a" t ≡ ok none)
    × (get_policy "a" t ≡ ok none)
    × (get_policy_history "a" 5 t ≡ ok [])
    × (get_counters "a" t ≡ ok none)
    × (get_flow_counters "a" t ≡ ok none)
    × (set_contains "a" t.deploying ≡ false)
    × (get_deployments "a" 5 t ≡ get_deployments "a" 5 fleet)
remove_node_forgets_example = remove_node_forgets "a" "a" 5 fleet

mark_stale_nodes_lem_example :
    (IsIn "a" (listed (mark_stale_nodes 1000 300 fleet).0)
      ↔ ((n : _) × (get "a" fleet.nodes ≡ some n) × IsStale 1000 300 n))
    × (get "a" (mark_stale_nodes 1000 300 fleet).1.nodes
        ≡ Option.map (swept 1000 300) (get "a" fleet.nodes))
mark_stale_nodes_lem_example = mark_stale_nodes_lem 1000 300 "a" fleet (run-IsValid calls)

abbrev two_nodes : MemoryStorage
two_nodes = record new { nodes = ("a", node "a" active 100) ∷ ("b", node "b" online 900) ∷ [] }

abbrev two_states : HashMap ℕ
two_states = ("active", 1) ∷ ("online", 1) ∷ []

abbrev logged : MemoryStorage
logged = record new { events = event "e" 3 ∷ event "f" 8 ∷ [] }
