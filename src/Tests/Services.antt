-- ===== src/Tests/Services.antt =====
-- The theorems about the gRPC services at concrete inputs.
use mathlib.Core.List.Perm
use mathlib.Core.List.{Perm}
use pacinet.Prelude.{
  ◌≢◌, inl, false, ℕ, ◌+◌, ◌%◌, String, ◌==◌, ◌≡◌, ◌⊎◌, inl, refl, true, none, some, List, [], ◌∷◌,
  map, Result, ok, err, arith, length, keep, if◌then◌else◌,
}
use pacinet.HashMap.{HashMap, get, insert, set_contains, contains_key}
use pacinet.Error.{PaciNetError, FsmError, StatusCode}
use pacinet.Model.{DateTime, Node, PolicyVersion}
use pacinet.Model.State.{online, active, display, from_proto}
use pacinet.Fsm.Definition.{FsmDefinition}
use pacinet.Fsm.Instance.{FsmInstance, is_running, transition}
use pacinet.Fsm.Validate.{validate}
use pacinet.Fsm.Validate.Spec.{IsState}
use pacinet.Storage.State.{MemoryStorage, new, listed}
use pacinet.Storage.Interface.{memory}
use pacinet.Storage.Nodes
use pacinet.Storage.Policies.{store_policy, version_of}
use pacinet.Storage.Deploys.{end_deploy}
use pacinet.Storage.Machines.{
  store_fsm_instance, store_fsm_definition, get_fsm_instance, get_fsm_definition,
  update_fsm_instance,
}
use pacinet.Fsm.Duration.{parse_duration}
use pacinet.Storage.Run.{Call, run, step}
use pacinet.Storage.Run.Invariant.{IsValid}
use pacinet.Storage.Run.Preserves.{run-IsValid, step-IsValid}
use pacinet.Deploy.Options.{normalize_options, ensure_node_capabilities, require}
use pacinet.Deploy.Node.{deploy_to_node, Env}
use pacinet.Deploy.Node.Stored.{IsStored}
use pacinet.Deploy.Fleet.{u32_size}
use pacinet.Engine.Actions.{version_options}
use pacinet.Engine.Transitions.{
  find_instance, find_definition, advance_instance, advance_target, manual_target, is_manual,
  first_transition, fire_transition, move_to, enter,
}
use pacinet.Events.Fleet.{NodeEvent}
use pacinet.Service.Agents.{
  ControllerService, HeartbeatRequest, RegisterNodeRequest, reported_state, heartbeat,
  register_node, proto_of_number,
}
use pacinet.Service.Agents.Laws.{
  beaten, joined, not_registered, heartbeat_lem, register_node-heartbeat,
}
use pacinet.Service.Nodes.{
  node_to_proto, fleet_summary, tally_states, list_nodes, get_node, get_fleet_status,
}
use pacinet.Service.Nodes.Laws.{list_nodes-get_node}
use pacinet.Service.Deploys.{
  DeployPolicyRequest, BatchDeployPolicyResponse, single_request, options_or_default, response_of,
  deploy_policy, batch_deploy_policy,
}
use pacinet.Service.Deploys.Guards.{busy, missing, guarded, deploy_policy_lem}
use pacinet.Service.Deploys.Batch.{batch_deploy_policy-counts}
use pacinet.Service.Rollback.{RollbackPolicyResponse, rollback_policy}
use pacinet.Service.Rollback.Restores.{IsAnswer, rollback_policy-IsStored}
use pacinet.Service.Machines.{
  create_fsm_definition, delete_fsm_definition as delete_call, advance_fsm, fsm_response,
}
use pacinet.Service.Machines.Laws.{
  IsUnfit, IsValidated, create_fsm_definition_lem, advance_fsm-IsState,
}
use pacinet.Tests.Data.{node, policy, calls, fleet, env, cache, world, canary, instance_one}

heartbeat_lem_example :
    let error_text : PaciNetError → String = λ e. "error" in
    let now : DateTime = 950 in
    let service : ControllerService = record { counter_cache = some cache; has_event_bus = true } in
    let req : HeartbeatRequest = record { node_id = "b"; state = 4; uptime_seconds = 3 } in
    let j : String = "b" in
    let s : MemoryStorage = fleet in
    let r = heartbeat error_text now service req s in
    ((node : Node) × (get req.node_id s.nodes ≡ some node)
      × (r.0.0 ≡ ok tt)
      × (service.has_event_bus ≡ true
          → node.state ≢ reported_state req.state
          → r.0.1
            ≡ NodeEvent.state_changed node.node_id node.hostname node.labels
                (display node.state)
                (display (reported_state req.state))
                now
              ∷ [])
      × ((service.has_event_bus ≡ false) ⊎ (node.state ≡ reported_state req.state) → r.0.1 ≡ [])
      × (get j r.1.nodes
          ≡ (if req.node_id == j then some (beaten now req node) else get j s.nodes)))
    ⊎ ((get req.node_id s.nodes ≡ none) × (r ≡ ((err not_registered, []), s)))
heartbeat_lem_example =
    heartbeat_lem (λ e. "error") 950 (record { counter_cache = some cache; has_event_bus = true })
      (record { node_id = "b"; state = 4; uptime_seconds = 3 }) "b" fleet

register_node-heartbeat_example :
    let error_text : PaciNetError → String = λ e. "error" in
    let uuid : String = "u" in
    let now : DateTime = 950 in
    let later : DateTime = 960 in
    let cache : ControllerService = record { counter_cache = some cache; has_event_bus = true } in
    let req : RegisterNodeRequest = record {
      hostname = "h";
      agent_address = "x";
      labels = [];
      pacgate_version = "1";
      capabilities = [];
    } in
    let state : ℕ = 2 in
    let uptime : ℕ = 3 in
    let j : String = "a" in
    let s : MemoryStorage = fleet in
    let r = register_node error_text uuid now cache req s in
    let b =
      heartbeat error_text later cache
        (record { node_id = uuid; state = state; uptime_seconds = uptime })
        r.1 in
    (r.0 ≡ (ok uuid, NodeEvent.registered uuid req.hostname req.labels now ∷ []))
    × (get j r.1.nodes ≡ (if uuid == j then some (joined uuid now req) else get j s.nodes))
    × (b.0 ≡ (
      ok tt,
      NodeEvent.state_changed uuid req.hostname req.labels "registered"
            (display (reported_state state))
            later
          ∷ [],
    ))
unfolding reported_state proto_of_number from_proto
register_node-heartbeat_example =
    register_node-heartbeat (λ e. "error") "u" 950 960
      (record { counter_cache = some cache; has_event_bus = true })
      (record {
        hostname = "h";
        agent_address = "x";
        labels = [];
        pacgate_version = "1";
        capabilities = [];
      })
      2 3 "a" fleet refl refl

deploy_policy_lem_example :
    let env : Env = env in
    let req : DeployPolicyRequest = single_request "r" none (node "b" online 900) in
    let j : String = "a" in
    let s : MemoryStorage = fleet in
    let r = deploy_policy env req s in
    (((get req.node_id s.nodes ≡ none) × (r ≡ (err (missing req.node_id), s)))
      ⊎ ((set_contains req.node_id s.deploying ≡ true) × (r ≡ (err (busy env req.node_id), s)))
      ⊎ ((node : Node) × (get req.node_id s.nodes ≡ some node)
          × (r ≡ (
            ok (
                response_of
                  (deploy_to_node memory env node req.rules_yaml
                    (options_or_default req.options)
                    (guarded req.node_id s)).0),
            end_deploy req.node_id
                (deploy_to_node memory env node req.rules_yaml
                  (options_or_default req.options)
                  (guarded req.node_id s)).1,
          ))))
    × (set_contains j r.1.deploying ≡ set_contains j s.deploying)
deploy_policy_lem_example =
    deploy_policy_lem env (single_request "r" none (node "b" online 900)) "a" fleet

list_nodes-get_node_example :
    let error_text : PaciNetError → String = λ e. "error" in
    let label_filter : HashMap String = [] in
    let n : Node = node "a" active 100 in
    let s : MemoryStorage = fleet in
    let nodes : List Node = listed (Nodes.list_nodes label_filter s) in
    (list_nodes error_text label_filter s
      ≡ ok (map (λ x. node_to_proto x (get x.node_id s.policies)) nodes))
    × (get_fleet_status error_text label_filter s
        ≡ ok (record {
          total_nodes = length nodes % u32_size;
          nodes_by_state = tally_states nodes [];
          nodes = map (λ x. fleet_summary x (get x.node_id s.policies)) nodes;
        }))
    × (get_node error_text n.node_id s ≡ ok (node_to_proto n (get n.node_id s.policies)))
unfolding run step Nodes.register_node store_policy store_fsm_instance insert Nodes.list_nodes
list_nodes-get_node_example =
    list_nodes-get_node (λ e. "error") [] (node "a" active 100) fleet (run-IsValid calls) (inl refl)

create_fsm_definition_lem_example :
    let error_text : PaciNetError → String = λ e. "error" in
    let fsm_text : FsmError → String = λ e. "error" in
    let from_yaml : String → Result FsmDefinition FsmError = λ y. ok canary in
    let yaml : String = "y" in
    let name : String = "canary" in
    let s : MemoryStorage = new in
    let r = create_fsm_definition error_text fsm_text from_yaml yaml s in
    (((d : FsmDefinition) × (from_yaml yaml ≡ ok d)
        × (validate d ≡ ok tt)
        × (r.0 ≡ ok d.name)
        × (get d.name r.1.fsm_definitions ≡ some d))
      ⊎ (IsUnfit from_yaml yaml
          × (message : String) × (r
              ≡ (err (record { code = StatusCode.invalid_argument; message = message }), s))))
    × IsValidated r.1
    × IsValidated (delete_call error_text name s).1
create_fsm_definition_lem_example =
    create_fsm_definition_lem (λ e. "error") (λ e. "error") (λ y. ok canary) "y" "canary" new tt

batch_deploy_policy-counts_example :
    let nodes : List Node = listed (Nodes.list_nodes [] fleet) in
    let r = batch_deploy_policy "r" none (λ i. env) (λ ns. ns) [] fleet in
    (b : BatchDeployPolicyResponse) × (r.0 ≡ ok b)
    × Perm (map (λ x. x.node_id) b.results) (map (λ n. n.node_id) nodes)
    × (b.total_nodes ≡ length nodes)
    × (b.succeeded ≡ length (keep (λ x. x.success) b.results))
    × (b.succeeded + b.failed ≡ b.total_nodes)
    × (set_contains "a" r.1.deploying ≡ set_contains "a" fleet.deploying)
unfolding run step Nodes.register_node store_policy store_fsm_instance insert Nodes.list_nodes
batch_deploy_policy-counts_example =
    batch_deploy_policy-counts "r" none (λ i. env) (λ ns. ns) [] "a" fleet Perm.rfl (omega arith)

-- Two policies for `a`, so that there is a version to go back to.
abbrev two_versions : MemoryStorage
two_versions = run (Call.store_policy (policy "a" "new") ∷ []) fleet

abbrev first_version : PolicyVersion
first_version = version_of 1 (policy "a" "old")

two_versions-IsValid : IsValid two_versions
unfolding run step
two_versions-IsValid = step-IsValid (Call.store_policy (policy "a" "new")) fleet (run-IsValid calls)

not_named : ◌≢◌ {A = ℕ} 0 0 → first_version.version ≡ 0
not_named h = absurd (h refl)

rollback_policy-IsStored_example :
    let d =
      deploy_to_node memory env
        (node "a" active 100)
        first_version.rules_yaml
        (version_options first_version)
        (guarded "a" two_versions) in
    let r = rollback_policy env "a" 0 two_versions in
    ((response : RollbackPolicyResponse) × (r.0 ≡ ok response)
      × IsAnswer response d.0 first_version 2)
    × IsStored env "a" first_version.rules_yaml
        (normalize_options (version_options first_version))
        d.0.version
        r.1
    × (set_contains "b" r.1.deploying ≡ set_contains "b" two_versions.deploying)
unfolding run step Nodes.register_node store_policy store_fsm_instance insert get version_of
    ensure_node_capabilities normalize_options require set_contains
rollback_policy-IsStored_example =
    rollback_policy-IsStored env "a" 0 (node "a" active 100) first_version "b" two_versions
      two_versions-IsValid refl refl (inl refl) (λ _. refl) not_named (omega arith) refl

-- The machine of `instance_one`, validated.
abbrev machine : MemoryStorage
machine = run (Call.store_fsm_definition canary ∷ Call.store_fsm_instance instance_one ∷ []) new

accepted : validate canary ≡ ok tt
unfolding validate contains_key parse_duration
accepted = refl

machine-IsValidated : IsValidated machine
unfolding run step store_fsm_definition store_fsm_instance insert
machine-IsValidated = (accepted, tt)

advance_fsm-IsState_example :
    (i : FsmInstance) × (d : FsmDefinition) × (get "i" machine.fsm_instances ≡ some i)
    × (get i.definition_name machine.fsm_definitions ≡ some d)
    × IsState "done" d.states
unfolding run step store_fsm_definition store_fsm_instance insert get is_running find_instance
    find_definition get_fsm_instance get_fsm_definition advance_instance advance_target
    manual_target is_manual first_transition fire_transition move_to enter transition
    update_fsm_instance contains_key advance_fsm fsm_response
advance_fsm-IsState_example =
    advance_fsm-IsState world "i" "done"
      (record { success = true; subject = "done"; message = "FSM advanced" }) machine
      machine-IsValidated refl refl
