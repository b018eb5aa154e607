-- ===== src/Storage/State.antt =====
-- The state of `MemoryStorage`, and the shape of its methods.
use pacinet.Prelude.{ℕ, List, [], Result, ok, err}
use pacinet.HashMap.{HashMap, HashSet}
use pacinet.Error.{PaciNetError}
use pacinet.Model.{
  Node, Policy, PolicyVersion, DeploymentRecord, RuleCounter, FlowCounter, PersistentEvent,
  AuditEntry, PolicyTemplate, WebhookDelivery,
}
use pacinet.Fsm.Definition.{FsmDefinition}
use pacinet.Fsm.Instance.{FsmInstance}

pub record MemoryStorage : Type 0 where
  pub nodes : HashMap Node
  pub policies : HashMap Policy
  pub counters : HashMap (List RuleCounter)
  pub flow_counters : HashMap (List FlowCounter)
  pub policy_versions : HashMap (List PolicyVersion)
  pub deployments : List DeploymentRecord
  pub deploying : HashSet
  pub fsm_definitions : HashMap FsmDefinition
  pub fsm_instances : HashMap FsmInstance
  pub events : List PersistentEvent
  pub audit_log : List AuditEntry
  pub templates : HashMap PolicyTemplate
  pub webhook_deliveries : List WebhookDelivery

-- `MemoryStorage::new`
abbrev pub new : MemoryStorage
new = record {
  nodes = [];
  policies = [];
  counters = [];
  flow_counters = [];
  policy_versions = [];
  deployments = [];
  deploying = [];
  fsm_definitions = [];
  fsm_instances = [];
  events = [];
  audit_log = [];
  templates = [];
  webhook_deliveries = [];
}

abbrev pub max_memory_events : ℕ
max_memory_events = 10000

abbrev pub max_memory_audit : ℕ
max_memory_audit = 10000

abbrev pub Answer : Type 0 → Type 0
Answer A = Result A PaciNetError

-- A method with `&self` that writes: its answer, and the state that it leaves.
abbrev pub Method : Type 0 → Type 0
Method A = MemoryStorage → Answer A × MemoryStorage

-- The list that a query answers with; the queries of `MemoryStorage` never fail.
abbrev pub listed : {A : Type 0} → Answer (List A) → List A
listed (ok xs) = xs
listed (err e) = []
