-- ===== src/Events/Fleet.antt =====
-- `CounterEvent` and `NodeEvent` of pacinet-server/src/events.rs.
use pacinet.Prelude.{ℕ, String, List}
use pacinet.HashMap.{HashMap}
use pacinet.Model.{DateTime, PersistentEvent}
use pacinet.Fsm.Definition.{F64}

pub record CounterRateData : Type 0 where
  pub rule_name : String
  pub match_count : ℕ
  pub byte_count : ℕ
  pub matches_per_second : F64
  pub bytes_per_second : F64

pub record CounterEvent : Type 0 where
  pub node_id : String
  pub counters : List CounterRateData
  pub collected_at : DateTime

unfoldable pub counter_to_persistent : String → String → CounterEvent → PersistentEvent
counter_to_persistent uuid payload e = record {
  id = uuid;
  event_type = "counter.update";
  source = e.node_id;
  payload = payload;
  timestamp = e.collected_at;
}

pub data NodeEvent : Type 0 where
  registered :
      (node_id hostname : String) (labels : HashMap String) (timestamp : DateTime) → NodeEvent
  state_changed :
      (node_id hostname : String) (labels : HashMap String) (old_state new_state : String)
      (timestamp : DateTime)
      → NodeEvent
  heartbeat_stale :
      (node_id hostname : String) (labels : HashMap String) (timestamp : DateTime) → NodeEvent
  removed : (node_id hostname : String) (labels : HashMap String) (timestamp : DateTime) → NodeEvent

unfoldable pub node_id : NodeEvent → String
node_id (registered i _ _ _) = i
node_id (state_changed i _ _ _ _ _) = i
node_id (heartbeat_stale i _ _ _) = i
node_id (removed i _ _ _) = i

unfoldable pub labels : NodeEvent → HashMap String
labels (registered _ _ l _) = l
labels (state_changed _ _ l _ _ _) = l
labels (heartbeat_stale _ _ l _) = l
labels (removed _ _ l _) = l

unfoldable pub event_type : NodeEvent → String
event_type (registered _ _ _ _) = "node.registered"
event_type (state_changed _ _ _ _ _ _) = "node.state_changed"
event_type (heartbeat_stale _ _ _ _) = "node.heartbeat_stale"
event_type (removed _ _ _ _) = "node.removed"

unfoldable pub timestamp : NodeEvent → DateTime
timestamp (registered _ _ _ t) = t
timestamp (state_changed _ _ _ _ _ t) = t
timestamp (heartbeat_stale _ _ _ t) = t
timestamp (removed _ _ _ t) = t

unfoldable pub node_to_persistent : String → String → NodeEvent → PersistentEvent
unfolding event_type node_id timestamp
node_to_persistent uuid payload e = record {
  id = uuid;
  event_type = event_type e;
  source = node_id e;
  payload = payload;
  timestamp = timestamp e;
}
