-- ===== src/Fsm/Instance.antt =====
-- pacinet-core/src/fsm/instance.rs: the state of a running machine and its history.
pub mod History
use pacinet.Prelude.{ℕ, String, Bool, Option, none, some, List, [], ◌∷◌, ◌++◌}
use pacinet.HashMap.{HashMap}
use pacinet.Model.{DateTime}
use pacinet.Fsm.Definition.{CompileOptions}
use pacinet.Fsm.Status.{FsmInstanceStatus, TransitionTrigger, running, initial, same_status}

pub record NodeActionResult : Type 0 where
  pub node_id : String
  pub success : Bool
  pub message : String

pub record ActionResult : Type 0 where
  pub succeeded : ℕ
  pub failed : ℕ
  pub total : ℕ
  pub node_results : List NodeActionResult

pub record FsmContext : Type 0 where
  pub rules_yaml : Option String
  pub policy_hash : Option String
  pub compile_options : Option CompileOptions
  pub target_nodes : List String
  pub deployed_nodes : List String
  pub failed_nodes : List String
  pub last_action_result : Option ActionResult
  pub batch_cursor : ℕ
  pub counter_condition_first_true : HashMap DateTime

pub record FsmTransitionRecord : Type 0 where
  pub from_state : String
  pub to_state : String
  pub trigger : TransitionTrigger
  pub timestamp : DateTime
  pub message : String

pub record FsmInstance : Type 0 where
  pub instance_id : String
  pub definition_name : String
  pub current_state : String
  pub status : FsmInstanceStatus
  pub created_at : DateTime
  pub updated_at : DateTime
  pub context : FsmContext
  pub history : List FsmTransitionRecord

-- `FsmInstance::new`; the identifier is the `uuid` crate's.
unfoldable pub new_instance : String → DateTime → String → String → FsmContext → FsmInstance
new_instance uuid now definition_name initial_state context = record {
  instance_id = uuid;
  definition_name = definition_name;
  current_state = initial_state;
  status = running;
  created_at = now;
  updated_at = now;
  context = context;
  history =
      record {
        from_state = "";
        to_state = initial_state;
        trigger = initial;
        timestamp = now;
        message = "FSM instance started";
      }
      ∷ [];
}

-- `FsmInstance::transition`
unfoldable pub transition :
    DateTime → String → TransitionTrigger → String → FsmInstance → FsmInstance
transition now to_state trigger message i = record i {
  history =
      i.history
      ++ record {
        from_state = i.current_state;
        to_state = to_state;
        trigger = trigger;
        timestamp = now;
        message = message;
      }
        ∷ [];
  current_state = to_state;
  updated_at = now;
}

unfoldable pub is_running : FsmInstance → Bool
is_running i = same_status i.status running

unfoldable pub for_deployment : String → Option CompileOptions → FsmContext
for_deployment rules_yaml compile_options = record {
  rules_yaml = some rules_yaml;
  policy_hash = none;
  compile_options = compile_options;
  target_nodes = [];
  deployed_nodes = [];
  failed_nodes = [];
  last_action_result = none;
  batch_cursor = 0;
  counter_condition_first_true = [];
}

unfoldable pub for_adaptive_policy : List String → FsmContext
for_adaptive_policy target_nodes = record {
  rules_yaml = none;
  policy_hash = none;
  compile_options = none;
  target_nodes = target_nodes;
  deployed_nodes = [];
  failed_nodes = [];
  last_action_result = none;
  batch_cursor = 0;
  counter_condition_first_true = [];
}
