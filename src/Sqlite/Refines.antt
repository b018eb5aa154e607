-- ===== src/Sqlite/Refines.antt =====
-- What it is for a state of the SQLite storage to be one of the memory storage, and what keeps it.
use pacinet.Prelude.{String, ok, ◌≡◌, ◌∙◌, refl, sym, ap, List, arith, is_some}
use pacinet.HashMap.{HashMap, HashSet, get, insert, remove, contains_key}
use pacinet.HashMap.Laws.{get-insert, get-remove, contains_key-eq-is_some}
use pacinet.Model.{
  Node, RuleCounter, FlowCounter, PolicyTemplate, DeploymentRecord, PersistentEvent, AuditEntry,
  WebhookDelivery,
}
use pacinet.HashMap.Keyed.{IsKeyedBy}
use pacinet.Fsm.Definition.{FsmDefinition}
use pacinet.Fsm.Instance.{FsmInstance}
use pacinet.Storage.State.{MemoryStorage}
use pacinet.Storage.Policies.{or_empty}
use pacinet.Storage.Run.Invariant.{IsNumbered}
use pacinet.Sqlite.{SqliteStorage, DefinitionRow, rows_of}
use pacinet.Sqlite.Machines.{DefinitionJson, read_row}

pub record Refines (json : DefinitionJson) (q : SqliteStorage) (m : MemoryStorage) : Type 0 where
  pub nodes : (k : String) → get k q.nodes ≡ get k m.nodes
  pub policies : (k : String) → get k q.policies ≡ get k m.policies
  pub versions : (k : String) → rows_of k q.policy_versions ≡ or_empty (get k m.policy_versions)
  pub numbered : (k : String) → IsNumbered k 1 (rows_of k q.policy_versions)
  pub counters : (k : String) → get k q.counters ≡ get k m.counters
  pub flow_counters : (k : String) → get k q.flow_counters ≡ get k m.flow_counters
  pub rows_keyed : IsKeyedBy (λ n. n.node_id) q.nodes
  pub nodes_keyed : IsKeyedBy (λ n. n.node_id) m.nodes
  pub definitions :
      (k : String) → read_row json (get k q.fsm_definitions) ≡ ok (get k m.fsm_definitions)
  pub instances : (k : String) → get k q.fsm_instances ≡ get k m.fsm_instances
  pub templates : (k : String) → get k q.templates ≡ get k m.templates
  pub deploying : q.deploying ≡ m.deploying

module _ {V : Type 0} (a b : HashMap V) (same : (k : String) → get k a ≡ get k b) where
  pub same-insert : (i : String) (v : V) (k : String) → get k (insert i v a) ≡ get k (insert i v b)
  same-insert i v k = ground (arith, get-insert i k v a, get-insert i k v b, same k)

  pub same-remove : (i k : String) → get k (remove i a) ≡ get k (remove i b)
  same-remove i k = ground (arith, get-remove i k a, get-remove i k b, same k)

  pub same-contains_key : (k : String) → contains_key k a ≡ contains_key k b
  same-contains_key k =
      contains_key-eq-is_some k a ∙ ap is_some (same k) ∙ sym (contains_key-eq-is_some k b)

module _ (json : DefinitionJson) (q : SqliteStorage) (m : MemoryStorage)
    (r : Refines json q m) where
  pub with_nodes :
      (a b : HashMap Node)
      → ((k : String) → get k a ≡ get k b)
      → IsKeyedBy (λ n. n.node_id) a
      → IsKeyedBy (λ n. n.node_id) b
      → Refines json (record q { nodes = a }) (record m { nodes = b })
  with_nodes a b h ka kb = record {
    nodes = h;
    rows_keyed = ka;
    nodes_keyed = kb;
    policies = r.policies;
    versions = r.versions;
    numbered = r.numbered;
    counters = r.counters;
    flow_counters = r.flow_counters;
    definitions = r.definitions;
    instances = r.instances;
    templates = r.templates;
    deploying = r.deploying;
  }

  pub with_deploying :
      (d : HashSet) → Refines json (record q { deploying = d }) (record m { deploying = d })
  with_deploying d = record {
    nodes = r.nodes;
    rows_keyed = r.rows_keyed;
    nodes_keyed = r.nodes_keyed;
    policies = r.policies;
    versions = r.versions;
    numbered = r.numbered;
    counters = r.counters;
    flow_counters = r.flow_counters;
    definitions = r.definitions;
    instances = r.instances;
    templates = r.templates;
    deploying = refl;
  }

  pub with_counters :
      (a b : HashMap (List RuleCounter))
      → ((k : String) → get k a ≡ get k b)
      → Refines json (record q { counters = a }) (record m { counters = b })
  with_counters a b h = record {
    nodes = r.nodes;
    rows_keyed = r.rows_keyed;
    nodes_keyed = r.nodes_keyed;
    policies = r.policies;
    versions = r.versions;
    numbered = r.numbered;
    counters = h;
    flow_counters = r.flow_counters;
    definitions = r.definitions;
    instances = r.instances;
    templates = r.templates;
    deploying = r.deploying;
  }

  pub with_flow_counters :
      (a b : HashMap (List FlowCounter))
      → ((k : String) → get k a ≡ get k b)
      → Refines json (record q { flow_counters = a }) (record m { flow_counters = b })
  with_flow_counters a b h = record {
    nodes = r.nodes;
    rows_keyed = r.rows_keyed;
    nodes_keyed = r.nodes_keyed;
    policies = r.policies;
    versions = r.versions;
    numbered = r.numbered;
    counters = r.counters;
    flow_counters = h;
    definitions = r.definitions;
    instances = r.instances;
    templates = r.templates;
    deploying = r.deploying;
  }

  pub with_definitions :
      (a : HashMap DefinitionRow) (b : HashMap FsmDefinition)
      → ((k : String) → read_row json (get k a) ≡ ok (get k b))
      → Refines json (record q { fsm_definitions = a }) (record m { fsm_definitions = b })
  with_definitions a b h = record {
    nodes = r.nodes;
    rows_keyed = r.rows_keyed;
    nodes_keyed = r.nodes_keyed;
    policies = r.policies;
    versions = r.versions;
    numbered = r.numbered;
    counters = r.counters;
    flow_counters = r.flow_counters;
    definitions = h;
    instances = r.instances;
    templates = r.templates;
    deploying = r.deploying;
  }

  pub with_instances :
      (a b : HashMap FsmInstance)
      → ((k : String) → get k a ≡ get k b)
      → Refines json (record q { fsm_instances = a }) (record m { fsm_instances = b })
  with_instances a b h = record {
    nodes = r.nodes;
    rows_keyed = r.rows_keyed;
    nodes_keyed = r.nodes_keyed;
    policies = r.policies;
    versions = r.versions;
    numbered = r.numbered;
    counters = r.counters;
    flow_counters = r.flow_counters;
    definitions = r.definitions;
    instances = h;
    templates = r.templates;
    deploying = r.deploying;
  }

  pub with_templates :
      (a b : HashMap PolicyTemplate)
      → ((k : String) → get k a ≡ get k b)
      → Refines json (record q { templates = a }) (record m { templates = b })
  with_templates a b h = record {
    nodes = r.nodes;
    rows_keyed = r.rows_keyed;
    nodes_keyed = r.nodes_keyed;
    policies = r.policies;
    versions = r.versions;
    numbered = r.numbered;
    counters = r.counters;
    flow_counters = r.flow_counters;
    definitions = r.definitions;
    instances = r.instances;
    templates = h;
    deploying = r.deploying;
  }

  -- What the queries that are compared do not read.
  pub with_logs :
      (ds : List DeploymentRecord) (es : List PersistentEvent) (audit : List AuditEntry)
      (ws : List WebhookDelivery) (ds' : List DeploymentRecord) (es' : List PersistentEvent)
      (audit' : List AuditEntry) (ws' : List WebhookDelivery)
      → Refines json
          (record q { deployments = ds; events = es; audit_log = audit; webhook_deliveries = ws })
          (record m {
            deployments = ds';
            events = es';
            audit_log = audit';
            webhook_deliveries = ws';
          })
  with_logs ds es audit ws ds' es' audit' ws' = record {
    nodes = r.nodes;
    rows_keyed = r.rows_keyed;
    nodes_keyed = r.nodes_keyed;
    policies = r.policies;
    versions = r.versions;
    numbered = r.numbered;
    counters = r.counters;
    flow_counters = r.flow_counters;
    definitions = r.definitions;
    instances = r.instances;
    templates = r.templates;
    deploying = r.deploying;
  }
