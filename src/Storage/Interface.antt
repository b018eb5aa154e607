-- ===== src/Storage/Interface.antt =====
-- The trait `Storage` of pacinet-core/src/storage.rs, as far as deployment and the engine call it, and its
-- implementation by `MemoryStorage`. A method that takes `&self` and reads leaves the state alone.
use pacinet.Prelude.{ℕ, String, Bool, Option, List}
use pacinet.HashMap.{HashMap}
use pacinet.Model.{Node, Policy, PolicyVersion, DeploymentRecord}
use pacinet.Model.State.{NodeState}
use pacinet.Fsm.Definition.{FsmDefinition}
use pacinet.Fsm.Status.{FsmInstanceStatus}
use pacinet.Fsm.Instance.{FsmInstance}
use pacinet.Storage.State.{MemoryStorage, Answer}
use pacinet.Storage.Nodes
use pacinet.Storage.Policies
use pacinet.Storage.Deploys
use pacinet.Storage.Machines

pub record Storage : Type 1 where
  pub State : Type 0
  pub get_node : String → State → Answer (Option Node)
  pub list_nodes : HashMap String → State → Answer (List Node)
  pub update_node_state : String → NodeState → State → Answer Bool × State
  pub store_policy : Policy → State → Answer ℕ × State
  pub get_policy : String → State → Answer (Option Policy)
  pub get_policy_history : String → ℕ → State → Answer (List PolicyVersion)
  pub record_deployment : DeploymentRecord → State → Answer (Unit {0}) × State
  pub begin_deploy : String → State → Answer (Unit {0}) × State
  pub end_deploy : String → State → State
  pub get_fsm_definition : String → State → Answer (Option FsmDefinition)
  pub store_fsm_instance : FsmInstance → State → Answer (Unit {0}) × State
  pub get_fsm_instance : String → State → Answer (Option FsmInstance)
  pub update_fsm_instance : FsmInstance → State → Answer (Unit {0}) × State
  pub list_fsm_instances :
      Option String → Option FsmInstanceStatus → State → Answer (List FsmInstance)

abbrev pub memory : Storage
memory = record {
  State = MemoryStorage;
  get_node = Nodes.get_node;
  list_nodes = Nodes.list_nodes;
  update_node_state = Nodes.update_node_state;
  store_policy = Policies.store_policy;
  get_policy = Policies.get_policy;
  get_policy_history = Policies.get_policy_history;
  record_deployment = Deploys.record_deployment;
  begin_deploy = Deploys.begin_deploy;
  end_deploy = Deploys.end_deploy;
  get_fsm_definition = Machines.get_fsm_definition;
  store_fsm_instance = Machines.store_fsm_instance;
  get_fsm_instance = Machines.get_fsm_instance;
  update_fsm_instance = Machines.update_fsm_instance;
  list_fsm_instances = Machines.list_fsm_instances;
}
