-- ===== src/Error.antt =====
-- pacinet-core/src/error.rs and pacinet-core/src/fsm/error.rs.
use pacinet.Prelude.{String}

pub data FsmError : Type 0 where
  invalid_definition : String → FsmError
  instance_not_found : String → FsmError
  definition_not_found : String → FsmError
  invalid_state : String → FsmError
  no_transition : String → FsmError
  already_completed : FsmError
  action_error : String → FsmError
  yaml_parse : String → FsmError

pub data PaciNetError : Type 0 where
  node_not_found : String → PaciNetError
  node_already_registered : String → PaciNetError
  deployment_failed : String → PaciNetError
  pac_gate_error : String → PaciNetError
  agent_unreachable : String → PaciNetError
  invalid_config : String → PaciNetError
  invalid_state_transition : String → String → PaciNetError
  concurrent_deploy : String → PaciNetError
  fsm : FsmError → PaciNetError
  internal : String → PaciNetError

-- The codes of `tonic::Status` that the conversion uses.
pub data StatusCode : Type 0 where
  not_found already_exists failed_precondition internal_error unavailable invalid_argument aborted :
      StatusCode

status_of_fsm : FsmError → StatusCode
status_of_fsm (instance_not_found _) = not_found
status_of_fsm (definition_not_found _) = not_found
status_of_fsm already_completed = failed_precondition
status_of_fsm (invalid_definition _) = invalid_argument
status_of_fsm (yaml_parse _) = invalid_argument
status_of_fsm _ = internal_error

-- `From<PaciNetError> for tonic::Status`, without the text of the message.
unfoldable pub status_code : PaciNetError → StatusCode
unfolding status_of_fsm
status_code (node_not_found _) = not_found
status_code (node_already_registered _) = already_exists
status_code (deployment_failed _) = failed_precondition
status_code (pac_gate_error _) = internal_error
status_code (agent_unreachable _) = unavailable
status_code (invalid_config _) = invalid_argument
status_code (invalid_state_transition _ _) = failed_precondition
status_code (concurrent_deploy _) = aborted
status_code (fsm e) = status_of_fsm e
status_code (internal _) = internal_error
