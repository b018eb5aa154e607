-- ===== src/Sqlite/Simulation/NodeCalls.antt =====
-- Each call on nodes and counters does to the SQLite storage what it does to the memory storage.
use mathlib.Core.Option
use pacinet.Prelude.{
  ℕ, String, ◌≡◌, ◌∙◌, inl, inr, refl, sym, ap, List, Bool-cases, some, Option-cases,
}
use pacinet.HashMap.{HashMap, get, insert}
use pacinet.HashMap.Keyed.{IsKeyedBy-insert, IsKeyedBy-rewrite}
use pacinet.Model.State.{NodeState, can_transition_to}
use pacinet.Model.{DateTime, Duration, Node, RuleCounter, FlowCounter}
use pacinet.Storage.State.{MemoryStorage}
use pacinet.Storage.Run.{Call}
use pacinet.Storage.Run.Steps.{mark_stale-IsKeyedBy}
use pacinet.Storage.Nodes
use pacinet.Storage.Nodes.Changes.{
  swept, mark_stale_nodes-IsKeyedBy, IsStale-of_test, test_of_stale,
}
use pacinet.Sqlite.{SqliteStorage, Constraints, DefinitionRow, is_node, referring}
use pacinet.Sqlite
use pacinet.Sqlite.Machines.{DefinitionJson}
use pacinet.Sqlite.Calls.{sql_step, memory_step}
use pacinet.Sqlite.Sweep.{mark_stale_nodes-swept}
use pacinet.Sqlite.Refines.{Refines, same-insert, with_nodes, with_counters, with_flow_counters}
use pacinet.Sqlite.Simulation.{Simulates}

module _ (texts : Constraints) (json : DefinitionJson) (q : SqliteStorage) (m : MemoryStorage)
    (r : Refines json q m) where
  rewritten :
      (k : String) (n w : Node)
      → get k m.nodes ≡ some n
      → w.node_id ≡ n.node_id
      → Refines json
          (record q { nodes = insert k w q.nodes })
          (record m { nodes = insert k w m.nodes })
  rewritten k n w e same =
      with_nodes json q m r _ _ (same-insert q.nodes m.nodes r.nodes k w)
        (IsKeyedBy-rewrite (λ x. x.node_id) k n w q.nodes (r.nodes k ∙ e) same r.rows_keyed)
        (IsKeyedBy-rewrite (λ x. x.node_id) k n w m.nodes e same r.nodes_keyed)

  pub register :
      (n : Node)
      → Simulates json
          (sql_step texts json (Call.register_node n) q)
          (memory_step (Call.register_node n) m)
          q
  unfolding sql_step memory_step Sqlite.register_node Nodes.register_node
  register n = elim (Bool-cases (is_node n.node_id q)) [
    | inl e ↦ rw (e, Sqlite.register_node) (inl (refl, refl))
    | inr e ↦
        rw (e, Sqlite.register_node)
          (inr (
            refl,
            inl refl,
            with_nodes json q m r _ _ (same-insert q.nodes m.nodes r.nodes n.node_id n)
                (IsKeyedBy-insert (λ x. x.node_id) n.node_id n q.nodes refl r.rows_keyed)
                (IsKeyedBy-insert (λ x. x.node_id) n.node_id n m.nodes refl r.nodes_keyed),
          ))
  ]

  pub counted :
      (k : String) (cs : List RuleCounter)
      → Simulates json
          (sql_step texts json (Call.store_counters k cs) q)
          (memory_step (Call.store_counters k cs) m)
          q
  unfolding sql_step memory_step Sqlite.store_counters referring Nodes.store_counters
  counted k cs = elim (Bool-cases (is_node k q)) [
    | inr e ↦ rw (e, Sqlite.store_counters, referring) (inl (refl, refl))
    | inl e ↦
        rw (e, Sqlite.store_counters, referring)
          (inr (
            refl,
            inl refl,
            with_counters json q m r _ _ (same-insert q.counters m.counters r.counters k cs),
          ))
  ]

  pub flow_counted :
      (k : String) (cs : List FlowCounter)
      → Simulates json
          (sql_step texts json (Call.store_flow_counters k cs) q)
          (memory_step (Call.store_flow_counters k cs) m)
          q
  unfolding sql_step memory_step Sqlite.store_flow_counters referring Nodes.store_flow_counters
  flow_counted k cs = elim (Bool-cases (is_node k q)) [
    | inr e ↦ rw (e, Sqlite.store_flow_counters, referring) (inl (refl, refl))
    | inl e ↦
        rw (e, Sqlite.store_flow_counters, referring)
          (inr (
            refl,
            inl refl,
            with_flow_counters json q m r _ _
                (same-insert q.flow_counters m.flow_counters r.flow_counters k cs),
          ))
  ]

  pub heartbeat :
      (now : DateTime) (k : String) (st : NodeState) (up : ℕ)
      → Simulates json
          (sql_step texts json (Call.update_heartbeat now k st up) q)
          (memory_step (Call.update_heartbeat now k st up) m)
          q
  unfolding sql_step memory_step Sqlite.update_heartbeat Nodes.update_heartbeat
  heartbeat now k st up = elim (Option-cases (get k m.nodes)) [
    | inl e ↦
        rw (r.nodes k ∙ e, e, Sqlite.update_heartbeat, Nodes.update_heartbeat)
          (inr (refl, inl refl, r))
    | inr (n, e) ↦
        rw (r.nodes k ∙ e, e, Sqlite.update_heartbeat, Nodes.update_heartbeat)
          (inr (refl, inl refl, rewritten k n _ e refl))
  ]

  pub moved :
      (k : String) (st : NodeState)
      → Simulates json
          (sql_step texts json (Call.update_node_state k st) q)
          (memory_step (Call.update_node_state k st) m)
          q
  unfolding sql_step memory_step Sqlite.update_node_state Nodes.update_node_state
  moved k st = elim (Option-cases (get k m.nodes)) [
    | inl e ↦
        rw (r.nodes k ∙ e, e, Sqlite.update_node_state, Nodes.update_node_state)
          (inr (refl, inl refl, r))
    | inr (n, e) ↦ elim (Bool-cases (can_transition_to n.state st)) [
      | inl c ↦
          rw (r.nodes k ∙ e, e, c, Sqlite.update_node_state, Nodes.update_node_state)
            (inr (refl, inl refl, rewritten k n _ e refl))
      | inr c ↦
          rw (r.nodes k ∙ e, e, c, Sqlite.update_node_state, Nodes.update_node_state)
            (inr (refl, inl refl, r))
    ]
  ]

  pub annotated :
      (k : String) (new_ : HashMap String) (gone : List String)
      → Simulates json
          (sql_step texts json (Call.update_annotations k new_ gone) q)
          (memory_step (Call.update_annotations k new_ gone) m)
          q
  unfolding sql_step memory_step Sqlite.Fleet.update_annotations Nodes.update_annotations
  annotated k new_ gone = elim (Option-cases (get k m.nodes)) [
    | inl e ↦
        rw (r.nodes k ∙ e, e, Sqlite.Fleet.update_annotations, Nodes.update_annotations)
          (inr (refl, inl refl, r))
    | inr (n, e) ↦
        rw (r.nodes k ∙ e, e, Sqlite.Fleet.update_annotations, Nodes.update_annotations)
          (inr (refl, inl refl, rewritten k n _ e refl))
  ]

  pub swept_nodes :
      (now : DateTime) (d : Duration)
      → Simulates json
          (sql_step texts json (Call.mark_stale_nodes now d) q)
          (memory_step (Call.mark_stale_nodes now d) m)
          q
  unfolding sql_step memory_step Sqlite.Fleet.mark_stale_nodes Nodes.mark_stale_nodes
  swept_nodes now d =
      let rows = λ (k : String). mark_stale_nodes-swept now d k q r.rows_keyed in
      let kept = λ (k : String). mark_stale_nodes-IsKeyedBy now d k m r.nodes_keyed in
      inr (
        refl,
        inr (
            inl (
              _,
              _,
              refl,
              refl,
              λ id. (
                λ i.
                    let (n, e, t) = (rows id).0.0 i in
                    (kept id).0.1 (n, sym (r.nodes id) ∙ e, IsStale-of_test now d n t),
                λ i.
                    let (n, e, t) = (kept id).0.0 i in
                    (rows id).0.1 (n, r.nodes id ∙ e, test_of_stale now d n t),
              ),
            )),
        with_nodes json q m r _ _
            (λ k. (rows k).1 ∙ ap (Option.map (swept now d)) (r.nodes k) ∙ sym (kept k).1)
            (rows "").2 (mark_stale-IsKeyedBy now d m.nodes r.nodes_keyed),
      )
