-- ===== src/Service/Nodes.antt =====
-- The calls of `ManagementService` in pacinet-server/src/service.rs about nodes, their policies and counters,
-- the state of the fleet, annotations, and the histories. An answer that is a message with the same
-- fields as a record of the data model is given as that record.
pub mod Laws
use pacinet.Prelude.{
  ℕ, ◌+◌, ◌%◌, String, Bool, true, false, Option, none, some, List, [], ◌∷◌, map, Result, ok, err,
  ◌>>=◌, length, eqb, is_some, if◌then◌else◌,
}
use pacinet.Text.{◌<>◌}
use pacinet.HashMap.{HashMap, get, insert}
use pacinet.Error.{PaciNetError, StatusCode}
use pacinet.Model.{DateTime, Node, Policy, PolicyVersion, DeploymentRecord, RuleCounter}
use pacinet.Model.State.{ProtoNodeState, to_proto, display}
use pacinet.Storage.State.{MemoryStorage}
use pacinet.Storage.Nodes
use pacinet.Storage.Policies
use pacinet.Storage.Deploys
use pacinet.Events.Fleet.{NodeEvent, removed}
use pacinet.Deploy.Fleet.{u32_size}
use pacinet.Service.{Reply, blocking, or_not_found, ok_or_none, or_default}

-- `NodeInfo` but for the age of the last heartbeat, which is the time since `last_heartbeat`.
pub record NodeInfo : Type 0 where
  pub node_id : String
  pub hostname : String
  pub agent_address : String
  pub labels : HashMap String
  pub capabilities : HashMap String
  pub state : ProtoNodeState
  pub registered_at : DateTime
  pub last_heartbeat : DateTime
  pub pacgate_version : String
  pub policy_hash : String
  pub uptime_seconds : ℕ
  pub annotations : HashMap String

-- `policy.map(|p| p.policy_hash.clone()).unwrap_or_default()`
abbrev pub hash_of : Option Policy → String
hash_of none = ""
hash_of (some p) = p.policy_hash

unfoldable pub node_to_proto : Node → Option Policy → NodeInfo
node_to_proto node policy = record {
  node_id = node.node_id;
  hostname = node.hostname;
  agent_address = node.agent_address;
  labels = node.labels;
  capabilities = node.capabilities;
  state = to_proto node.state;
  registered_at = node.registered_at;
  last_heartbeat = node.last_heartbeat;
  pacgate_version = node.pacgate_version;
  policy_hash = hash_of policy;
  uptime_seconds = node.uptime_seconds;
  annotations = node.annotations;
}

pub record FleetNodeSummary : Type 0 where
  pub node_id : String
  pub hostname : String
  pub state : ProtoNodeState
  pub policy_hash : String
  pub uptime_seconds : ℕ
  pub last_deploy_time : Option DateTime

unfoldable pub fleet_summary : Node → Option Policy → FleetNodeSummary
fleet_summary node policy = record {
  node_id = node.node_id;
  hostname = node.hostname;
  state = to_proto node.state;
  policy_hash = hash_of policy;
  uptime_seconds = node.uptime_seconds;
  last_deploy_time = elim policy [ none ↦ none | some p ↦ some p.deployed_at ];
}

pub record FleetStatus : Type 0 where
  pub total_nodes : ℕ
  pub nodes_by_state : HashMap ℕ
  pub nodes : List FleetNodeSummary

-- `*nodes_by_state.entry(node.state.to_string()).or_insert(0) += 1` for each node.
unfoldable pub count_state : String → HashMap ℕ → HashMap ℕ
count_state k m = insert k (elim (get k m) [ none ↦ 1 | some n ↦ (n + 1) % u32_size ]) m

unfoldable pub tally_states : List Node → HashMap ℕ → HashMap ℕ
unfolding count_state
tally_states [] m = m
tally_states (n ∷ ns) m = tally_states ns (count_state (display n.state) m)

abbrev pub node_not_found : String → String
node_not_found node_id = "Node " <> node_id <> " not found"

-- A limit of 0 stands for the default.
abbrev pub limit_or : ℕ → ℕ → ℕ
limit_or limit default = if eqb limit 0 then default else limit

module _ (error_text : PaciNetError → String) where
  unfoldable pub list_nodes : HashMap String → MemoryStorage → Reply (List NodeInfo)
  unfolding blocking node_to_proto
  list_nodes label_filter s = do
    nodes ← blocking error_text (Nodes.list_nodes label_filter s)
    policies ← blocking error_text (Policies.get_policies_for_nodes (map (λ n. n.node_id) nodes) s)
    ok (map (λ n. node_to_proto n (get n.node_id policies)) nodes)

  -- `get_node(…).await?.ok_or_else(not_found)`, with which several calls begin.
  unfoldable pub find_node : String → MemoryStorage → Reply Node
  unfolding blocking
  find_node node_id s = do
    node ← blocking error_text (Nodes.get_node node_id s)
    or_not_found (node_not_found node_id) node

  unfoldable pub get_node : String → MemoryStorage → Reply NodeInfo
  unfolding find_node blocking node_to_proto
  get_node node_id s = do
    node ← find_node node_id s
    policy ← blocking error_text (Policies.get_policy node_id s)
    ok (node_to_proto node policy)

  -- The answer says whether the node was there.
  unfoldable pub remove_node :
      DateTime → Bool → String → MemoryStorage → (Reply Bool × List NodeEvent) × MemoryStorage
  unfolding blocking
  remove_node now has_event_bus node_id s =
      let node_before : Option Node =
        if has_event_bus then ok_or_none (Nodes.get_node node_id s) else none in
      let (answer, t) = Nodes.remove_node node_id s in
      elim (blocking error_text answer) [
        | err e ↦ ((err e, []), t)
        | ok was_there ↦ (
          (
            ok was_there,
            if was_there
                then elim node_before [
                  | none ↦ []
                  | some n ↦ removed n.node_id n.hostname n.labels now ∷ []
                ]
                else [],
          ),
          t,
        )
      ]

  unfoldable pub get_policy : String → MemoryStorage → Reply Policy
  unfolding blocking
  get_policy node_id s = do
    policy ← blocking error_text (Policies.get_policy node_id s)
    or_not_found ("No policy for node " <> node_id) policy

  unfoldable pub get_node_counters : String → MemoryStorage → Reply (List RuleCounter)
  unfolding blocking
  get_node_counters node_id s = do
    counters ← blocking error_text (Nodes.get_counters node_id s)
    ok (elim counters [ none ↦ [] | some cs ↦ cs ])

  -- The loop of `get_aggregate_counters`.
  unfoldable pub counters_of : List Node → MemoryStorage → Reply (List (String × List RuleCounter))
  unfolding blocking
  counters_of [] s = ok []
  counters_of (n ∷ ns) s = do
    counters ← blocking error_text (Nodes.get_counters n.node_id s)
    rest ← counters_of ns s
    ok (elim counters [ none ↦ rest | some cs ↦ (n.node_id, cs) ∷ rest ])

  unfoldable pub get_aggregate_counters :
      HashMap String → MemoryStorage → Reply (List (String × List RuleCounter))
  unfolding blocking counters_of
  get_aggregate_counters label_filter s = do
    nodes ← blocking error_text (Nodes.list_nodes label_filter s)
    counters_of nodes s

  unfoldable pub get_fleet_status : HashMap String → MemoryStorage → Reply FleetStatus
  unfolding blocking fleet_summary tally_states
  get_fleet_status label_filter s = do
    nodes ← blocking error_text (Nodes.list_nodes label_filter s)
    policies ← blocking error_text (Policies.get_policies_for_nodes (map (λ n. n.node_id) nodes) s)
    ok (record {
      total_nodes = length nodes % u32_size;
      nodes_by_state = tally_states nodes [];
      nodes = map (λ n. fleet_summary n (get n.node_id policies)) nodes;
    })

  unfoldable pub get_policy_history : String → ℕ → MemoryStorage → Reply (List PolicyVersion)
  unfolding blocking
  get_policy_history node_id limit s =
      blocking error_text (Policies.get_policy_history node_id (limit_or limit 10) s)

  unfoldable pub get_deployment_history : String → ℕ → MemoryStorage → Reply (List DeploymentRecord)
  unfolding blocking
  get_deployment_history node_id limit s =
      blocking error_text (Deploys.get_deployments node_id (limit_or limit 20) s)

  unfoldable pub set_node_annotations :
      String → HashMap String → List String → MemoryStorage → Reply (Unit {0}) × MemoryStorage
  unfolding blocking
  set_node_annotations node_id annotations remove_keys s =
      let (answer, t) = Nodes.update_annotations node_id annotations remove_keys s in
      (blocking error_text answer, t)
