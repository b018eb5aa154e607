-- ===== src/Tests/Databases.antt =====
-- The theorems about the SQLite storage at concrete inputs.
use pacinet.Prelude.{
  All, ◌≡◌, ◌≤◌, ◌↔◌, ◌⊎◌, String, ◌==◌, List, [], ◌∷◌, refl, none, some, ok, Result, IsIn, length,
  arith, if◌then◌else◌,
}
use pacinet.Model.State.{registered, online, deploying}
use pacinet.Storage.State.{new}
use pacinet.Storage.Nodes
use pacinet.Storage.Policies
use pacinet.Storage.Machines
use pacinet.Storage.Logs
use mathlib.Core.List.{reverse}
use pacinet.HashMap.{HashMap, get}
use pacinet.Model.{Node, PersistentEvent}
use pacinet.Storage.Policies.{version_of}
use pacinet.Sqlite.{SqliteStorage, Constraints, open_new}
use pacinet.Sqlite.Rows.{Formats, NodeRow}
use pacinet.Sqlite.Rows.Columns.{
  policy_to_row, row_to_policy, version_to_row, row_to_policy_version, node_to_row, row_to_node,
}
use pacinet.Sqlite.Rows.Laws.{row_to_policy-policy_to_row, row_to_node-node_to_row}
use pacinet.Sqlite.Logs.{OrderBy, is_wanted, query_events}
use pacinet.Sqlite.Logs.Newest.{IsDescending, query_events-newest}
use pacinet.Sqlite
use pacinet.Storage.Run.{
  Call, register_node, remove_node, update_heartbeat, update_node_state, store_policy, begin_deploy,
  end_deploy, store_fsm_definition, mark_stale_nodes, store_event, prune_events,
}
use pacinet.Storage.Logs.Queries.{IsAsked}
use pacinet.Sqlite.Machines.{DefinitionJson}
use pacinet.Sqlite.Calls.{IsLikeLog, IsReadBack, memory_run, sql_run}
use pacinet.Sqlite.Runs.{calls_of, sql_run-refines}
use pacinet.Tests.Data.{node, policy, event, canary}

abbrev texts : Constraints
texts = record {
  primary_key = "UNIQUE constraint failed: nodes.node_id";
  foreign_key = "FOREIGN KEY constraint failed";
}

-- Two registrations of a node, policies of a known and of an unknown node, a guard and a removal.
abbrev calls : List Call
calls =
    register_node (node "a" registered 1)
    ∷ register_node (node "a" online 2)
    ∷ store_policy (policy "a" "rules: []")
    ∷ store_policy (policy "b" "rules: []")
    ∷ store_policy (policy "a" "rules: [drop]")
    ∷ begin_deploy "a"
    ∷ begin_deploy "a"
    ∷ update_heartbeat 7 "a" online 60
    ∷ update_node_state "a" deploying
    ∷ end_deploy "a"
    ∷ register_node (node "c" registered 3)
    ∷ remove_node "c"
    ∷ store_fsm_definition canary
    ∷ mark_stale_nodes 1000 300
    ∷ store_event (event "e" 8)
    ∷ store_event (event "e" 9)
    ∷ prune_events 10
    ∷ []

-- The one definition that the test stores.
abbrev json : DefinitionJson
json = record { to_json = λ d. ok "{}"; from_json = λ t. ok canary }

calls-IsReadBack : All (IsReadBack json) calls
calls-IsReadBack = (
  tt,
  (
    tt,
    (
      tt,
      (
        tt,
        (
          tt,
          (
            tt,
            (tt, (tt, (tt, (tt, (tt, (tt, (("{}", refl, refl), (tt, (tt, (tt, (tt, tt))))))))))),
          ),
        ),
      ),
    ),
  ),
)

sql_run-refines_example :
    let (log, q) = sql_run texts json calls open_new in
    let (replayed, m) = memory_run (calls_of log) new in
    IsLikeLog log replayed
    × (Sqlite.get_node "a" q ≡ Nodes.get_node "a" m)
    × (Sqlite.get_policy "a" q ≡ Policies.get_policy "a" m)
    × (Sqlite.get_policy_history "a" 10 q ≡ Policies.get_policy_history "a" 10 m)
    × (Sqlite.get_counters "a" q ≡ Nodes.get_counters "a" m)
    × (Sqlite.get_flow_counters "a" q ≡ Nodes.get_flow_counters "a" m)
    × (Sqlite.Machines.get_fsm_definition json "a" q ≡ Machines.get_fsm_definition "a" m)
    × (Sqlite.Machines.get_fsm_instance "a" q ≡ Machines.get_fsm_instance "a" m)
    × (Sqlite.Logs.get_template "a" q ≡ Logs.get_template "a" m)
sql_run-refines_example = sql_run-refines texts json calls "a" 10 calls-IsReadBack

abbrev written : HashMap String → Result String String
written [] = ok "{}"
written (e ∷ es) = ok "{\"env\":\"prod\"}"

-- Times and maps written as the tests need them.
abbrev formats : Formats
formats = record {
  to_rfc3339 = λ t. "1970-01-01T00:00:00.000000005+00:00";
  parse_from_rfc3339 = λ s. ok 5;
  to_json = written;
  from_json = λ s. if s == "{}" then ok [] else ok (("env", "prod") ∷ []);
}

row_to_policy-policy_to_row_example :
    let p = policy "a" "rules: []" in
    (row_to_policy formats (policy_to_row formats p) ≡ ok p)
    × (row_to_policy_version formats (version_to_row formats 3 p) ≡ ok (version_of 3 p))
row_to_policy-policy_to_row_example =
    row_to_policy-policy_to_row formats (policy "a" "rules: []") 3
      (omega arith, omega arith, omega arith, omega arith, omega arith) (omega arith) refl

abbrev stored : Node
stored = record (node "a" online 5) { registered_at = 5 }

row_to_node-node_to_row_example :
    (row : NodeRow) × (labels : HashMap String) × (capabilities : HashMap String)
    × (annotations : HashMap String) × (node_to_row formats stored ≡ ok row)
    × (row_to_node formats row
        ≡ ok (record stored {
          labels = labels;
          capabilities = capabilities;
          annotations = annotations;
        }))
    × ((k : String) → get k labels ≡ get k stored.labels)
    × ((k : String) → get k capabilities ≡ get k stored.capabilities)
    × ((k : String) → get k annotations ≡ get k stored.annotations)
row_to_node-node_to_row_example =
    row_to_node-node_to_row formats stored (omega arith) refl refl
      ("{\"env\":\"prod\"}", ("env", "prod") ∷ [], refl, refl, λ k. refl)
      ("{}", [], refl, refl, λ k. refl) ("{}", [], refl, refl, λ k. refl)

-- The order of rows that were inserted in the order of their times.
abbrev latest_first : OrderBy
latest_first = record { descending = λ key xs. reverse xs; ascending = λ key xs. xs }

abbrev logged : SqliteStorage
logged = record open_new { events = event "e" 3 ∷ event "f" 8 ∷ event "g" 9 ∷ [] }

query_events-newest_example :
    (answered : List PersistentEvent) × (left : List PersistentEvent) × (query_events latest_first
        none none
        (some 2)
        none
        2
        logged
      ≡ ok answered)
    × ((e : PersistentEvent)
        → (IsIn e logged.events × IsAsked none none (some 2) none e)
          ↔ (IsIn e answered ⊎ IsIn e left))
    × ((a b : PersistentEvent) → IsIn a answered → IsIn b left → b.timestamp ≤ a.timestamp)
    × ((left ≡ []) ⊎ (length answered ≡ 2))
    × (length answered ≤ 2)
unfolding is_wanted IsDescending
query_events-newest_example =
    query_events-newest latest_first none none (some 2) none 2 logged
      (λ e. (ground arith, ground arith))
      (λ y i. ground arith, (λ y i. ground arith, (λ y i. ground arith, tt)))
