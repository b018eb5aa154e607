-- ===== src/Model.antt =====
-- pacinet-core/src/model.rs: the records of the data model, and pacinet-core/src/error.rs.
-- The two enumerations with behaviour are the children.
pub mod State
pub mod Deployment
use pacinet.Prelude.{ℕ, String, Bool, Option, List, false, none, some, []}
use pacinet.HashMap.{HashMap}
use pacinet.Model.State.{NodeState, registered}
use pacinet.Model.Deployment.{DeploymentResult}

-- A `DateTime<Utc>` is its nanoseconds since 1970, a `Duration` its nanoseconds. The clock is an
-- argument, `now`, of every operation that reads it.
abbrev pub DateTime : Type 0
DateTime = ℕ

abbrev pub Duration : Type 0
Duration = ℕ

abbrev pub nanos_per_second : ℕ
nanos_per_second = 1000000000

pub record Node : Type 0 where
  pub node_id : String
  pub hostname : String
  pub agent_address : String
  pub labels : HashMap String
  pub capabilities : HashMap String
  pub state : NodeState
  pub registered_at : DateTime
  pub last_heartbeat : DateTime
  pub pacgate_version : String
  pub uptime_seconds : ℕ
  pub annotations : HashMap String

-- `Node::new`; the fresh identifier comes from the `uuid` crate and is an argument.
unfoldable pub new_node : String → DateTime → String → String → HashMap String → String → Node
new_node uuid now hostname agent_address labels pacgate_version = record {
  node_id = uuid;
  hostname = hostname;
  agent_address = agent_address;
  labels = labels;
  capabilities = [];
  state = registered;
  registered_at = now;
  last_heartbeat = now;
  pacgate_version = pacgate_version;
  uptime_seconds = 0;
  annotations = [];
}

-- The compile options of a policy, as `Policy` and `PolicyVersion` both hold them.
pub record Policy : Type 0 where
  pub node_id : String
  pub rules_yaml : String
  pub policy_hash : String
  pub deployed_at : DateTime
  pub counters_enabled : Bool
  pub rate_limit_enabled : Bool
  pub conntrack_enabled : Bool
  pub axi_enabled : Bool
  pub ports : ℕ
  pub target : String
  pub dynamic : Bool
  pub dynamic_entries : ℕ
  pub width : ℕ
  pub ptp : Bool
  pub rss : Bool
  pub rss_queues : ℕ
  pub int : Bool
  pub int_switch_id : ℕ

pub record PolicyVersion : Type 0 where
  pub version : ℕ
  pub node_id : String
  pub rules_yaml : String
  pub policy_hash : String
  pub deployed_at : DateTime
  pub counters_enabled : Bool
  pub rate_limit_enabled : Bool
  pub conntrack_enabled : Bool
  pub axi_enabled : Bool
  pub ports : ℕ
  pub target : String
  pub dynamic : Bool
  pub dynamic_entries : ℕ
  pub width : ℕ
  pub ptp : Bool
  pub rss : Bool
  pub rss_queues : ℕ
  pub int : Bool
  pub int_switch_id : ℕ

pub record DeploymentRecord : Type 0 where
  pub id : String
  pub node_id : String
  pub policy_version : ℕ
  pub policy_hash : String
  pub deployed_at : DateTime
  pub result : DeploymentResult
  pub message : String

pub record RuleCounter : Type 0 where
  pub rule_name : String
  pub match_count : ℕ
  pub byte_count : ℕ

pub record FlowCounter : Type 0 where
  pub flow_key : String
  pub packet_count : ℕ
  pub byte_count : ℕ
  pub state : String

pub record CounterSnapshot : Type 0 where
  pub node_id : String
  pub collected_at : DateTime
  pub counters : List RuleCounter

pub record PersistentEvent : Type 0 where
  pub id : String
  pub event_type : String
  pub source : String
  pub payload : String
  pub timestamp : DateTime

pub record AuditEntry : Type 0 where
  pub id : String
  pub timestamp : DateTime
  pub actor : String
  pub action : String
  pub resource_type : String
  pub resource_id : String
  pub details : String

pub record PolicyTemplate : Type 0 where
  pub name : String
  pub description : String
  pub rules_yaml : String
  pub tags : List String
  pub created_at : DateTime
  pub updated_at : DateTime

pub record WebhookDelivery : Type 0 where
  pub id : String
  pub instance_id : String
  pub url : String
  pub method : String
  pub status_code : Option ℕ
  pub success : Bool
  pub duration_ms : ℕ
  pub error : Option String
  pub attempt : ℕ
  pub timestamp : DateTime
