-- ===== src/Sqlite/Runs.antt =====
-- Any run of calls on a new SQLite storage is one of the memory storage, and queries agree.
use mathlib.Core.List.{reverse, append-nil}
use pacinet.Prelude.{ℕ, String, ◌≡◌, ◌∙◌, inl, inr, refl, ap, List, [], ◌∷◌, map, ok, take, All}
use pacinet.HashMap.{get}
use pacinet.Storage.State.{MemoryStorage, new, Answer}
use pacinet.Storage.Nodes
use pacinet.Storage.Policies
use pacinet.Storage.Machines
use pacinet.Storage.Logs
use pacinet.Sqlite.{SqliteStorage, Constraints, open_new, rows_of}
use pacinet.Sqlite
use pacinet.HashMap.Keyed.{IsKeyedBy-nil}
use pacinet.Storage.Run.{Call}
use pacinet.Sqlite.Machines.{DefinitionJson, read_row}
use pacinet.Sqlite.Calls.{
  Outcome, IsLikeLog, IsReadBack, sql_step, memory_step, sql_run, memory_run,
}
use pacinet.Sqlite.Versions.{order_descending-IsNumbered}
use pacinet.Sqlite.Refines.{Refines}
use pacinet.Sqlite.Simulation.Steps.{Simulates-step}

Refines-new : (json : DefinitionJson) → Refines json open_new new
unfolding get read_row
Refines-new json = record {
  nodes = λ k. refl;
  policies = λ k. refl;
  versions = λ k. refl;
  numbered = λ k. tt;
  counters = λ k. refl;
  flow_counters = λ k. refl;
  rows_keyed = IsKeyedBy-nil (λ n. n.node_id);
  nodes_keyed = IsKeyedBy-nil (λ n. n.node_id);
  definitions = λ k. refl;
  instances = λ k. refl;
  templates = λ k. refl;
  deploying = refl;
}

-- The calls of a log.
abbrev pub calls_of : List (Call × Answer Outcome) → List Call
calls_of = map (λ entry. entry.0)

Refines-sql_run :
    (texts : Constraints) (json : DefinitionJson) (cs : List Call) (q : SqliteStorage)
    (m : MemoryStorage)
    → All (IsReadBack json) cs
    → Refines json q m
    → let (log, last) = sql_run texts json cs q in
      let (replayed, left) = memory_run (calls_of log) m in
      IsLikeLog log replayed × Refines json last left
unfolding sql_run memory_run IsLikeLog
Refines-sql_run texts json [] q m h r = (tt, r)
Refines-sql_run texts json (c ∷ cs) q m h r = elim (Simulates-step texts json q m r c h.0) [
  | inl (refused, same) ↦ rw (refused, same) (Refines-sql_run texts json cs q m h.1 r)
  | inr (accepted, answers, next) ↦
      let (replayed, last) =
        Refines-sql_run texts json cs (sql_step texts json c q).1 (memory_step c m).1 h.1 next in
      rw accepted ((refl, answers, replayed), last)
]

history-Refines :
    (json : DefinitionJson) (k : String) (limit : ℕ) (q : SqliteStorage) (m : MemoryStorage)
    → Refines json q m
    → Sqlite.get_policy_history k limit q ≡ Policies.get_policy_history k limit m
unfolding Sqlite.get_policy_history Policies.get_policy_history
history-Refines json k limit q m r =
    let rows = order_descending-IsNumbered k 1 (rows_of k q.policy_versions) [] (r.numbered k) tt in
    ap (λ vs. ok (take limit vs)) (rows ∙ append-nil _ ∙ ap (λ vs. reverse vs) (r.versions k))

-- Whatever writing calls a new SQLite storage receives, in any order, if the JSON of each definition that they
-- store is read back as that definition: when the memory storage receives those that the constraints of the
-- schema do not refuse, it gives the same answers, but that a sweep may report the nodes in another order and
-- a pruning of the event log another count; and then the two storages answer every query for a node, its policy,
-- its history and its counters, for a definition, an instance and a template alike. The queries of the logs and
-- of the deployment records are not compared.
pub sql_run-refines :
    (texts : Constraints) (json : DefinitionJson) (cs : List Call) (k : String) (limit : ℕ)
    → All (IsReadBack json) cs
    → let (log, q) = sql_run texts json cs open_new in
      let (replayed, m) = memory_run (calls_of log) new in
      IsLikeLog log replayed
      × (Sqlite.get_node k q ≡ Nodes.get_node k m)
      × (Sqlite.get_policy k q ≡ Policies.get_policy k m)
      × (Sqlite.get_policy_history k limit q ≡ Policies.get_policy_history k limit m)
      × (Sqlite.get_counters k q ≡ Nodes.get_counters k m)
      × (Sqlite.get_flow_counters k q ≡ Nodes.get_flow_counters k m)
      × (Sqlite.Machines.get_fsm_definition json k q ≡ Machines.get_fsm_definition k m)
      × (Sqlite.Machines.get_fsm_instance k q ≡ Machines.get_fsm_instance k m)
      × (Sqlite.Logs.get_template k q ≡ Logs.get_template k m)
unfolding Sqlite.get_node Nodes.get_node Sqlite.get_policy Policies.get_policy Sqlite.get_counters
    Nodes.get_counters Sqlite.get_flow_counters Nodes.get_flow_counters
    Sqlite.Machines.get_fsm_definition Machines.get_fsm_definition Sqlite.Machines.get_fsm_instance
    Machines.get_fsm_instance Sqlite.Logs.get_template Logs.get_template
sql_run-refines texts json cs k limit h =
    let (log, q) = sql_run texts json cs open_new in
    let (replayed, r) = Refines-sql_run texts json cs open_new new h (Refines-new json) in
    let m = (memory_run (calls_of log) new).1 in
    (
      replayed,
      ap ok (r.nodes k),
      ap ok (r.policies k),
      history-Refines json k limit q m r,
      ap ok (r.counters k),
      ap ok (r.flow_counters k),
      r.definitions k,
      ap ok (r.instances k),
      ap ok (r.templates k),
    )
