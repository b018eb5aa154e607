-- ===== src/Sqlite/Simulation/Steps.antt =====
-- Each call does to the SQLite storage what it does to the memory storage, or is refused by a constraint.
use pacinet.Prelude.{inl, inr, refl, ap, ok, is_some}
use pacinet.Storage.State.{MemoryStorage}
use pacinet.Storage.Run.{Call}
use pacinet.Storage.Nodes
use pacinet.Storage.Deploys
use pacinet.Storage.Logs
use pacinet.Sqlite.{SqliteStorage, Constraints, DefinitionRow, is_node, referring}
use pacinet.Sqlite
use pacinet.Sqlite.Machines.{DefinitionJson}
use pacinet.Sqlite.Calls.{Outcome, IsReadBack, sql_step, memory_step}
use pacinet.Sqlite.Refines.{
  Refines, same-insert, same-remove, with_deploying, with_templates, with_logs,
}
use pacinet.Sqlite.Policies.{without_node}
use pacinet.Sqlite.Simulation.{Simulates}
use pacinet.Sqlite.Simulation.NodeCalls.{
  register, counted, flow_counted, heartbeat, moved, annotated, swept_nodes,
}
use pacinet.Sqlite.Simulation.MachineCalls.{created, updated, defined, dropped}
use pacinet.Sqlite.Simulation.RecordCalls.{
  policy_stored, deployed, logged, audited, delivered, begun,
}

module _ (texts : Constraints) (json : DefinitionJson) (q : SqliteStorage) (m : MemoryStorage)
    (r : Refines json q m) where
  pub Simulates-step :
      (c : Call) → IsReadBack json c → Simulates json (sql_step texts json c q) (memory_step c m) q
  unfolding sql_step memory_step Sqlite.remove_node Nodes.remove_node Sqlite.end_deploy
      Deploys.end_deploy Sqlite.Logs.prune_events Logs.prune_events Sqlite.Logs.store_template
      Logs.store_template Sqlite.Logs.delete_template Logs.delete_template
  Simulates-step (Call.register_node n) h = register texts json q m r n
  Simulates-step (Call.remove_node k) h =
      inr
        (refl, inl (ap (λ o. ok (Outcome.flag (is_some o))) (r.nodes k)), without_node json q m r k)
  Simulates-step (Call.update_heartbeat now k st up) h = heartbeat texts json q m r now k st up
  Simulates-step (Call.update_node_state k st) h = moved texts json q m r k st
  Simulates-step (Call.store_counters k cs) h = counted texts json q m r k cs
  Simulates-step (Call.store_flow_counters k cs) h = flow_counted texts json q m r k cs
  Simulates-step (Call.store_policy p) h = policy_stored texts json q m r p
  Simulates-step (Call.update_annotations k new_ gone) h = annotated texts json q m r k new_ gone
  Simulates-step (Call.store_fsm_definition d) h = defined texts json q m r d h
  Simulates-step (Call.delete_fsm_definition k) h = dropped texts json q m r k
  Simulates-step (Call.store_fsm_instance i) h = created texts json q m r i
  Simulates-step (Call.update_fsm_instance i) h = updated texts json q m r i
  Simulates-step (Call.store_template t) h =
      let same = same-insert q.templates m.templates r.templates t.name t in
      inr (refl, inl refl, with_templates json q m r _ _ same)
  Simulates-step (Call.delete_template k) h =
      let same = same-remove q.templates m.templates r.templates k in
      inr (
        refl,
        inl (ap (λ o. ok (Outcome.flag (is_some o))) (r.templates k)),
        with_templates json q m r _ _ same,
      )
  Simulates-step (Call.begin_deploy k) h = begun texts json q m r k
  Simulates-step (Call.end_deploy k) h =
      inr (refl, inl refl, rw r.deploying (with_deploying json q m r _))
  Simulates-step (Call.mark_stale_nodes now d) h = swept_nodes texts json q m r now d
  Simulates-step (Call.record_deployment d) h = deployed texts json q m r d
  Simulates-step (Call.store_event e) h = logged texts json q m r e
  Simulates-step (Call.prune_events t) h = inr (
    refl,
    inr (inr (_, _, refl, refl)),
    with_logs json q m r q.deployments (Sqlite.Logs.prune_events t q).1.events q.audit_log
        q.webhook_deliveries m.deployments (Logs.prune_events t m).1.events m.audit_log
        m.webhook_deliveries,
  )
  Simulates-step (Call.store_audit a) h = audited texts json q m r a
  Simulates-step (Call.store_webhook_delivery w) h = delivered texts json q m r w
