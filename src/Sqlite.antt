-- ===== src/Sqlite.antt =====
-- `SqliteStorage` of pacinet-server/src/storage/sqlite.rs with the tables of
-- pacinet-server/src/storage/schema.sql; here the nodes, their policies with the versions, their counters and the
-- deploy guard, and in Fleet, Machines and Logs the rest. A table with a primary key is a map from the key to
-- the row, or as one without it the list of its rows in the order of their insertion. A row stands for the record that is read back from it: the
-- texts of times, states and JSON columns come back as they were written (Rows, for those that the code reads
-- column by column). The JSON of a state machine's definition is kept as a text, which need not come back: a
-- number that is not finite is written as null. A statement fails here only by a
-- constraint of the schema, with a text that is an argument; SQLite checks foreign keys, as the schema asks.
pub mod Rows
pub mod Fleet
pub mod Machines
pub mod Logs
pub mod Calls
pub mod Versions
pub mod Sweep
pub mod Refines
pub mod Policies
pub mod Simulation
pub mod Runs
use pacinet.Prelude.{
  ℕ, ◌+◌, String, ◌==◌, Bool, true, false, not, ◌&&◌, Option, none, some, List, [], ◌∷◌, ◌++◌,
  Result, ok, err, ltb, keep, take, is_some, if◌then◌else◌,
}
use pacinet.HashMap.{HashMap, HashSet, get, insert, remove, values, set_insert, set_remove}
use pacinet.Error.{PaciNetError, internal, concurrent_deploy, invalid_state_transition}
use pacinet.Model.{
  DateTime, Node, Policy, PolicyVersion, RuleCounter, FlowCounter, DeploymentRecord,
  PersistentEvent, AuditEntry, PolicyTemplate, WebhookDelivery,
}
use pacinet.Fsm.Instance.{FsmInstance}
use pacinet.Model.State.{NodeState, can_transition_to, display}
use pacinet.Storage.State.{Answer}
use pacinet.Storage.Nodes.{matches_labels}
use pacinet.Storage.Policies.{version_of}

-- A row of `fsm_definitions`; the time of its creation, which nothing reads, is left out.
pub record DefinitionRow : Type 0 where
  pub kind : String
  pub definition_json : String

pub record SqliteStorage : Type 0 where
  pub nodes : HashMap Node
  pub policies : HashMap Policy
  pub policy_versions : List PolicyVersion
  pub counters : HashMap (List RuleCounter)
  pub flow_counters : HashMap (List FlowCounter)
  pub deployments : List DeploymentRecord
  pub fsm_definitions : HashMap DefinitionRow
  pub fsm_instances : HashMap FsmInstance
  pub events : List PersistentEvent
  pub audit_log : List AuditEntry
  pub templates : HashMap PolicyTemplate
  pub webhook_deliveries : List WebhookDelivery
  pub deploying : HashSet

-- `SqliteStorage::open` of a new database.
abbrev pub open_new : SqliteStorage
open_new = record {
  nodes = [];
  policies = [];
  policy_versions = [];
  counters = [];
  flow_counters = [];
  deployments = [];
  fsm_definitions = [];
  fsm_instances = [];
  events = [];
  audit_log = [];
  templates = [];
  webhook_deliveries = [];
  deploying = [];
}

-- The texts of the two constraints.
pub record Constraints : Type 0 where
  pub primary_key : String
  pub foreign_key : String

abbrev pub SqlMethod : Type 0 → Type 0
SqlMethod A = SqliteStorage → Answer A × SqliteStorage

-- `REFERENCES nodes(node_id)`
unfoldable pub is_node : String → SqliteStorage → Bool
is_node node_id s = is_some (get node_id s.nodes)

unfoldable pub get_node : String → SqliteStorage → Answer (Option Node)
get_node node_id s = ok (get node_id s.nodes)

unfoldable pub list_nodes : HashMap String → SqliteStorage → Answer (List Node)
list_nodes label_filter s = ok (keep (matches_labels label_filter) (values s.nodes))

-- `DELETE FROM nodes`, with the rows that `ON DELETE CASCADE` takes along.
unfoldable pub remove_node : String → SqlMethod Bool
remove_node node_id s = (
  ok (is_some (get node_id s.nodes)),
  record s {
    nodes = remove node_id s.nodes;
    policies = remove node_id s.policies;
    policy_versions = keep (λ v. not (v.node_id == node_id)) s.policy_versions;
    counters = remove node_id s.counters;
    flow_counters = remove node_id s.flow_counters;
    deployments = keep (λ d. not (d.node_id == node_id)) s.deployments;
    deploying = set_remove node_id s.deploying;
  },
)

unfoldable pub update_heartbeat : DateTime → String → NodeState → ℕ → SqlMethod Bool
update_heartbeat now node_id state uptime s = elim (get node_id s.nodes) [
  | none ↦ (ok false, s)
  | some node ↦ (
    ok true,
    record s {
      nodes =
          insert node_id
            (record node { last_heartbeat = now; state = state; uptime_seconds = uptime }) s.nodes;
    },
  )
]

unfoldable pub update_node_state : String → NodeState → SqlMethod Bool
update_node_state node_id state s = elim (get node_id s.nodes) [
  | none ↦ (ok false, s)
  | some node ↦
      if not (can_transition_to node.state state)
      then (err (invalid_state_transition (display node.state) (display state)), s)
      else (ok true, record s { nodes = insert node_id (record node { state = state }) s.nodes })
]

unfoldable pub get_counters : String → SqliteStorage → Answer (Option (List RuleCounter))
get_counters node_id s = ok (get node_id s.counters)

unfoldable pub get_flow_counters : String → SqliteStorage → Answer (Option (List FlowCounter))
get_flow_counters node_id s = ok (get node_id s.flow_counters)

-- `SELECT MAX(version)`, which is NULL of no rows.
unfoldable pub max_version : List PolicyVersion → Option ℕ
max_version [] = none
max_version (v ∷ vs) = elim (max_version vs) [
  | none ↦ some v.version
  | some n ↦ some (if ltb v.version n then n else v.version)
]

abbrev pub rows_of : String → List PolicyVersion → List PolicyVersion
rows_of node_id = keep (λ v. v.node_id == node_id)

-- `max_version.unwrap_or(0) + 1`
unfoldable pub next_version : String → SqliteStorage → ℕ
unfolding max_version
next_version node_id s = elim (max_version (rows_of node_id s.policy_versions)) [
  | none ↦ 1
  | some n ↦ n + 1
]

-- `ORDER BY version DESC`
unfoldable pub insert_descending : PolicyVersion → List PolicyVersion → List PolicyVersion
insert_descending v [] = v ∷ []
insert_descending v (w ∷ ws) =
    let rest = insert_descending v ws in if ltb w.version v.version then v ∷ w ∷ ws else w ∷ rest

unfoldable pub order_descending : List PolicyVersion → List PolicyVersion → List PolicyVersion
unfolding insert_descending
order_descending [] ordered = ordered
order_descending (v ∷ vs) ordered = order_descending vs (insert_descending v ordered)

unfoldable pub get_policy : String → SqliteStorage → Answer (Option Policy)
get_policy node_id s = ok (get node_id s.policies)

unfoldable pub get_policy_history : String → ℕ → SqliteStorage → Answer (List PolicyVersion)
unfolding order_descending
get_policy_history node_id limit s =
    ok (take limit (order_descending (rows_of node_id s.policy_versions) []))

unfoldable pub begin_deploy : String → SqlMethod (Unit {0})
begin_deploy node_id s =
    let (deploying, is_new) = set_insert node_id s.deploying in
    (if is_new then ok tt else err (concurrent_deploy node_id), record s { deploying = deploying })

unfoldable pub end_deploy : String → SqliteStorage → SqliteStorage
end_deploy node_id s = record s { deploying = set_remove node_id s.deploying }

module _ (texts : Constraints) where
  -- `INSERT INTO nodes`
  unfoldable pub register_node : Node → SqlMethod String
  unfolding is_node
  register_node node s =
      if is_node node.node_id s
      then (err (internal texts.primary_key), s)
      else (ok node.node_id, record s { nodes = insert node.node_id node s.nodes })

  -- A statement on a table whose rows refer to a node.
  unfoldable pub referring : {A : Type 0} → String → A → SqliteStorage → SqlMethod A
  unfolding is_node
  referring node_id a t s =
      if is_node node_id s then (ok a, t) else (err (internal texts.foreign_key), s)

  unfoldable pub store_counters : String → List RuleCounter → SqlMethod (Unit {0})
  unfolding referring
  store_counters node_id counters s =
      referring node_id tt (record s { counters = insert node_id counters s.counters }) s

  unfoldable pub store_flow_counters : String → List FlowCounter → SqlMethod (Unit {0})
  unfolding referring
  store_flow_counters node_id counters s =
      referring node_id tt (record s { flow_counters = insert node_id counters s.flow_counters }) s

  -- The row of the version, and then the current policy; both refer to the same node.
  unfoldable pub store_policy : Policy → SqlMethod ℕ
  unfolding referring next_version
  store_policy policy s =
      let version = next_version policy.node_id s in
      referring policy.node_id version
        (record s {
          policy_versions = s.policy_versions ++ version_of version policy ∷ [];
          policies = insert policy.node_id policy s.policies;
        })
        s
