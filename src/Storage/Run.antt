-- ===== src/Storage/Run.antt =====
-- The writing methods of `MemoryStorage` as one step function over a type of calls.
pub mod Invariant
pub mod Steps
pub mod Preserves
use pacinet.Prelude.{ℕ, String, List, [], ◌∷◌}
use pacinet.HashMap.{HashMap}
use pacinet.Model.{
  DateTime, Duration, Node, Policy, DeploymentRecord, RuleCounter, FlowCounter, PersistentEvent,
  AuditEntry, PolicyTemplate, WebhookDelivery,
}
use pacinet.Model.State.{NodeState}
use pacinet.Fsm.Definition.{FsmDefinition}
use pacinet.Fsm.Instance.{FsmInstance}
use pacinet.Storage.State.{MemoryStorage}
use pacinet.Storage.Nodes
use pacinet.Storage.Policies
use pacinet.Storage.Deploys
use pacinet.Storage.Machines
use pacinet.Storage.Logs

pub data Call : Type 0 where
  register_node : Node → Call
  remove_node : String → Call
  update_heartbeat : DateTime → String → NodeState → ℕ → Call
  update_node_state : String → NodeState → Call
  store_counters : String → List RuleCounter → Call
  store_flow_counters : String → List FlowCounter → Call
  mark_stale_nodes : DateTime → Duration → Call
  update_annotations : String → HashMap String → List String → Call
  store_policy : Policy → Call
  record_deployment : DeploymentRecord → Call
  begin_deploy : String → Call
  end_deploy : String → Call
  store_fsm_definition : FsmDefinition → Call
  delete_fsm_definition : String → Call
  store_fsm_instance : FsmInstance → Call
  update_fsm_instance : FsmInstance → Call
  store_event : PersistentEvent → Call
  prune_events : DateTime → Call
  store_audit : AuditEntry → Call
  store_template : PolicyTemplate → Call
  delete_template : String → Call
  store_webhook_delivery : WebhookDelivery → Call

unfoldable pub step : Call → MemoryStorage → MemoryStorage
step (register_node n) s = (Nodes.register_node n s).1
step (remove_node k) s = (Nodes.remove_node k s).1
step (update_heartbeat now k st up) s = (Nodes.update_heartbeat now k st up s).1
step (update_node_state k st) s = (Nodes.update_node_state k st s).1
step (store_counters k cs) s = (Nodes.store_counters k cs s).1
step (store_flow_counters k cs) s = (Nodes.store_flow_counters k cs s).1
step (mark_stale_nodes now d) s = (Nodes.mark_stale_nodes now d s).1
step (update_annotations k set_entries removed) s =
    (Nodes.update_annotations k set_entries removed s).1
step (store_policy p) s = (Policies.store_policy p s).1
step (record_deployment d) s = (Deploys.record_deployment d s).1
step (begin_deploy k) s = (Deploys.begin_deploy k s).1
step (end_deploy k) s = Deploys.end_deploy k s
step (store_fsm_definition d) s = (Machines.store_fsm_definition d s).1
step (delete_fsm_definition n) s = (Machines.delete_fsm_definition n s).1
step (store_fsm_instance i) s = (Machines.store_fsm_instance i s).1
step (update_fsm_instance i) s = (Machines.update_fsm_instance i s).1
step (store_event e) s = (Logs.store_event e s).1
step (prune_events t) s = (Logs.prune_events t s).1
step (store_audit e) s = (Logs.store_audit e s).1
step (store_template t) s = (Logs.store_template t s).1
step (delete_template n) s = (Logs.delete_template n s).1
step (store_webhook_delivery d) s = (Logs.store_webhook_delivery d s).1

-- Any sequence of calls.
unfoldable pub run : List Call → MemoryStorage → MemoryStorage
unfolding step
run [] s = s
run (c ∷ cs) s = run cs (step c s)
