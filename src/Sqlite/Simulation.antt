-- ===== src/Sqlite/Simulation.antt =====
-- What it is for a call to do to the SQLite storage what it does to the memory storage.
use mathlib.Core.Option
use pacinet.Prelude.{
  ℕ, String, ◌==◌, ◌≡◌, ◌⊎◌, ◌∙◌, inl, inr, refl, sym, ap, true, false, List, [], ◌∷◌, ◌++◌, ok,
  any, arith, Bool-cases, is_some, Option, none, some, Option-cases, Result-cases, IsIn,
}
use pacinet.HashMap.{HashMap, get, insert, contains_key, set_insert}
use pacinet.HashMap.Laws.{get-insert, get-remove}
use pacinet.HashMap.Keyed.{IsKeyedBy-insert, IsKeyedBy-rewrite}
use pacinet.Fsm.Definition.{FsmDefinition}
use pacinet.Fsm.Instance.{FsmInstance}
use pacinet.Model.State.{NodeState, can_transition_to}
use pacinet.Model.{
  DateTime, Duration, Node, Policy, RuleCounter, FlowCounter, DeploymentRecord, PersistentEvent,
  AuditEntry, WebhookDelivery,
}
use pacinet.Storage.State.{MemoryStorage, Answer}
use pacinet.Storage.Run.{Call}
use pacinet.Storage.Run.Steps.{mark_stale-IsKeyedBy}
use pacinet.Storage.Nodes
use pacinet.Storage.Nodes.Changes.{
  swept, mark_stale_nodes-IsKeyedBy, IsStale-of_test, test_of_stale,
}
use pacinet.Storage.Policies
use pacinet.Storage.Deploys
use pacinet.Storage.Machines
use pacinet.Storage.Logs
use pacinet.Sqlite.{SqliteStorage, Constraints, DefinitionRow, is_node, referring}
use pacinet.Sqlite
use pacinet.Sqlite.Machines.{DefinitionJson, read_row}
use pacinet.Sqlite.Calls.{Outcome, IsLike, IsReadBack, sql_step, memory_step, is_refused}
use pacinet.Sqlite.Sweep.{mark_stale_nodes-swept}
use pacinet.Sqlite.Refines.{
  Refines, same-insert, same-remove, same-contains_key, with_nodes, with_deploying, with_counters,
  with_flow_counters, with_definitions, with_instances, with_templates, with_logs,
}
use pacinet.Sqlite.Policies.{with_policy, without_node, next_of}
pub mod NodeCalls
pub mod MachineCalls
pub mod RecordCalls
pub mod Steps

-- What a step of the SQLite storage is for one of the memory storage.
abbrev pub Simulates :
    DefinitionJson
    → Answer Outcome × SqliteStorage
    → Answer Outcome × MemoryStorage
    → SqliteStorage
    → Type 0
Simulates json (a, q') (b, m') q =
    ((is_refused a ≡ true) × (q' ≡ q)) ⊎ ((is_refused a ≡ false) × IsLike a b × Refines json q' m')
