-- ===== src/Sqlite/Calls.antt =====
-- The writing calls of both storages, and runs of them.
use pacinet.Prelude.{
  ℕ, String, ◌≡◌, ◌↔◌, ◌⊎◌, Bool, true, false, List, [], ◌∷◌, IsIn, ok, err, if◌then◌else◌,
}
use pacinet.Error.{internal}
use pacinet.Storage.State.{MemoryStorage, Answer}
use pacinet.Storage.Run.{Call}
use pacinet.Storage.Nodes
use pacinet.Storage.Policies
use pacinet.Storage.Deploys
use pacinet.Storage.Machines
use pacinet.Storage.Logs
use pacinet.Sqlite.{SqliteStorage, Constraints}
use pacinet.Sqlite
use pacinet.Sqlite.Machines.{DefinitionJson}

-- What a call answers.
pub data Outcome : Type 0 where
  named : String → Outcome
  flag : Bool → Outcome
  version : ℕ → Outcome
  done : Unit {0} → Outcome
  marked : List String → Outcome
  pruned : ℕ → Outcome

abbrev pub answer : {A S : Type 0} → (A → Outcome) → Answer A × S → Answer Outcome × S
answer f (ok a, s) = (ok (f a), s)
answer f (err e, s) = (err e, s)

unfoldable pub sql_step :
    Constraints → DefinitionJson → Call → SqliteStorage → Answer Outcome × SqliteStorage
sql_step texts json (Call.register_node n) s = answer named (Sqlite.register_node texts n s)
sql_step texts json (Call.remove_node k) s = answer flag (Sqlite.remove_node k s)
sql_step texts json (Call.update_heartbeat now k st up) s =
    answer flag (Sqlite.update_heartbeat now k st up s)
sql_step texts json (Call.update_node_state k st) s = answer flag (Sqlite.update_node_state k st s)
sql_step texts json (Call.store_counters k cs) s = answer done (Sqlite.store_counters texts k cs s)
sql_step texts json (Call.store_flow_counters k cs) s =
    answer done (Sqlite.store_flow_counters texts k cs s)
sql_step texts json (Call.mark_stale_nodes now d) s =
    answer marked (Sqlite.Fleet.mark_stale_nodes now d s)
sql_step texts json (Call.update_annotations k new_ gone) s =
    answer done (Sqlite.Fleet.update_annotations k new_ gone s)
sql_step texts json (Call.store_policy p) s = answer version (Sqlite.store_policy texts p s)
sql_step texts json (Call.record_deployment d) s =
    answer done (Sqlite.Fleet.record_deployment texts d s)
sql_step texts json (Call.begin_deploy k) s = answer done (Sqlite.begin_deploy k s)
sql_step texts json (Call.end_deploy k) s = (ok (done tt), Sqlite.end_deploy k s)
sql_step texts json (Call.store_fsm_definition d) s =
    answer done (Sqlite.Machines.store_fsm_definition json d s)
sql_step texts json (Call.delete_fsm_definition k) s =
    answer flag (Sqlite.Machines.delete_fsm_definition k s)
sql_step texts json (Call.store_fsm_instance i) s =
    answer done (Sqlite.Machines.store_fsm_instance texts i s)
sql_step texts json (Call.update_fsm_instance i) s =
    answer done (Sqlite.Machines.update_fsm_instance i s)
sql_step texts json (Call.store_event e) s = answer done (Sqlite.Logs.store_event texts e s)
sql_step texts json (Call.prune_events t) s = answer pruned (Sqlite.Logs.prune_events t s)
sql_step texts json (Call.store_audit e) s = answer done (Sqlite.Logs.store_audit texts e s)
sql_step texts json (Call.store_template t) s = answer done (Sqlite.Logs.store_template t s)
sql_step texts json (Call.delete_template k) s = answer flag (Sqlite.Logs.delete_template k s)
sql_step texts json (Call.store_webhook_delivery d) s =
    answer done (Sqlite.Logs.store_webhook_delivery texts d s)

unfoldable pub memory_step : Call → MemoryStorage → Answer Outcome × MemoryStorage
memory_step (Call.register_node n) s = answer named (Nodes.register_node n s)
memory_step (Call.remove_node k) s = answer flag (Nodes.remove_node k s)
memory_step (Call.update_heartbeat now k st up) s =
    answer flag (Nodes.update_heartbeat now k st up s)
memory_step (Call.update_node_state k st) s = answer flag (Nodes.update_node_state k st s)
memory_step (Call.store_counters k cs) s = answer done (Nodes.store_counters k cs s)
memory_step (Call.store_flow_counters k cs) s = answer done (Nodes.store_flow_counters k cs s)
memory_step (Call.mark_stale_nodes now d) s = answer marked (Nodes.mark_stale_nodes now d s)
memory_step (Call.update_annotations k new_ gone) s =
    answer done (Nodes.update_annotations k new_ gone s)
memory_step (Call.store_policy p) s = answer version (Policies.store_policy p s)
memory_step (Call.record_deployment d) s = answer done (Deploys.record_deployment d s)
memory_step (Call.begin_deploy k) s = answer done (Deploys.begin_deploy k s)
memory_step (Call.end_deploy k) s = (ok (done tt), Deploys.end_deploy k s)
memory_step (Call.store_fsm_definition d) s = answer done (Machines.store_fsm_definition d s)
memory_step (Call.delete_fsm_definition k) s = answer flag (Machines.delete_fsm_definition k s)
memory_step (Call.store_fsm_instance i) s = answer done (Machines.store_fsm_instance i s)
memory_step (Call.update_fsm_instance i) s = answer done (Machines.update_fsm_instance i s)
memory_step (Call.store_event e) s = answer done (Logs.store_event e s)
memory_step (Call.prune_events t) s = answer pruned (Logs.prune_events t s)
memory_step (Call.store_audit e) s = answer done (Logs.store_audit e s)
memory_step (Call.store_template t) s = answer done (Logs.store_template t s)
memory_step (Call.delete_template k) s = answer flag (Logs.delete_template k s)
memory_step (Call.store_webhook_delivery d) s = answer done (Logs.store_webhook_delivery d s)

-- The error of a constraint; no other call of these answers it.
abbrev pub is_refused : Answer Outcome → Bool
is_refused (err (internal _)) = true
is_refused _ = false

-- The calls that the constraints do not refuse, with their answers.
unfoldable pub sql_run :
    Constraints
    → DefinitionJson
    → List Call
    → SqliteStorage
    → List (Call × Answer Outcome) × SqliteStorage
unfolding sql_step
sql_run texts json [] s = ([], s)
sql_run texts json (c ∷ cs) s =
    let (a, t) = sql_step texts json c s in
    let (log, u) = sql_run texts json cs t in (if is_refused a then log else (c, a) ∷ log, u)

unfoldable pub memory_run : List Call → MemoryStorage → List (Call × Answer Outcome) × MemoryStorage
unfolding memory_step
memory_run [] s = ([], s)
memory_run (c ∷ cs) s =
    let (a, t) = memory_step c s in let (log, u) = memory_run cs t in ((c, a) ∷ log, u)

-- The same answer, where a sweep may report the nodes in another order and a pruning another count: the event
-- log of the memory storage is bounded, and that of SQLite is not.
abbrev pub IsLike : Answer Outcome → Answer Outcome → Type 0
IsLike a b =
    (a ≡ b)
    ⊎ ((ids : List String) × (others : List String) × (a ≡ ok (marked ids))
        × (b ≡ ok (marked others))
        × ((id : String) → IsIn id ids ↔ IsIn id others))
    ⊎ ((m : ℕ) × (n : ℕ) × (a ≡ ok (pruned m)) × (b ≡ ok (pruned n)))

-- The same calls with like answers.
unfoldable pub IsLikeLog : List (Call × Answer Outcome) → List (Call × Answer Outcome) → Type 0
IsLikeLog [] [] = Unit
IsLikeLog ((c, a) ∷ log) ((d, b) ∷ others) = (c ≡ d) × IsLike a b × IsLikeLog log others
IsLikeLog _ _ = ⊥

-- `serde_json` reads a definition that is stored as it was written.
abbrev pub IsReadBack : DefinitionJson → Call → Type 0
IsReadBack json (Call.store_fsm_definition d) =
    (text : String) × (json.to_json d ≡ ok text) × (json.from_json text ≡ ok d)
IsReadBack json _ = Unit
