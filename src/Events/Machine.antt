-- ===== src/Events/Machine.antt =====
-- `FsmEvent` of pacinet-server/src/events.rs.
use pacinet.Prelude.{ℕ, String}
use pacinet.Model.{DateTime, PersistentEvent}

pub data FsmEvent : Type 0 where
  transition :
      (instance_id definition_name from_state to_state trigger message : String)
      (timestamp : DateTime)
      → FsmEvent
  deploy_progress :
      (instance_id definition_name : String) (deployed_nodes failed_nodes target_nodes : ℕ)
      (timestamp : DateTime)
      → FsmEvent
  instance_completed :
      (instance_id definition_name final_status : String) (timestamp : DateTime) → FsmEvent

unfoldable pub instance_id : FsmEvent → String
instance_id (transition i _ _ _ _ _ _) = i
instance_id (deploy_progress i _ _ _ _ _) = i
instance_id (instance_completed i _ _ _) = i

unfoldable pub event_type : FsmEvent → String
event_type (transition _ _ _ _ _ _ _) = "fsm.transition"
event_type (deploy_progress _ _ _ _ _ _) = "fsm.deploy_progress"
event_type (instance_completed _ _ _ _) = "fsm.completed"

unfoldable pub timestamp : FsmEvent → DateTime
timestamp (transition _ _ _ _ _ _ t) = t
timestamp (deploy_progress _ _ _ _ _ t) = t
timestamp (instance_completed _ _ _ t) = t

-- `to_persistent`, with the identifier and the payload as arguments.
unfoldable pub to_persistent : String → String → FsmEvent → PersistentEvent
unfolding event_type instance_id timestamp
to_persistent uuid payload e = record {
  id = uuid;
  event_type = event_type e;
  source = instance_id e;
  payload = payload;
  timestamp = timestamp e;
}
