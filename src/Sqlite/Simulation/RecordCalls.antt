-- ===== src/Sqlite/Simulation/RecordCalls.antt =====
-- Each call on policies, guards, deployments and logs does to the SQLite storage what it does to the memory storage.
use pacinet.Prelude.{String, ◌==◌, inl, inr, refl, ap, [], ◌∷◌, ◌++◌, ok, any, Bool-cases}
use pacinet.HashMap.{set_insert}
use pacinet.Model.{Policy, DeploymentRecord, PersistentEvent, AuditEntry, WebhookDelivery}
use pacinet.Storage.State.{MemoryStorage}
use pacinet.Storage.Run.{Call}
use pacinet.Storage.Policies
use pacinet.Storage.Deploys
use pacinet.Storage.Logs
use pacinet.Sqlite.{SqliteStorage, Constraints, DefinitionRow, is_node, referring}
use pacinet.Sqlite
use pacinet.Sqlite.Machines.{DefinitionJson}
use pacinet.Sqlite.Calls.{Outcome, sql_step, memory_step}
use pacinet.Sqlite.Refines.{Refines, with_deploying, with_logs}
use pacinet.Sqlite.Policies.{with_policy, next_of}
use pacinet.Sqlite.Simulation.{Simulates}

module _ (texts : Constraints) (json : DefinitionJson) (q : SqliteStorage) (m : MemoryStorage)
    (r : Refines json q m) where
  pub policy_stored :
      (p : Policy)
      → Simulates json
          (sql_step texts json (Call.store_policy p) q)
          (memory_step (Call.store_policy p) m)
          q
  unfolding sql_step memory_step Sqlite.store_policy referring Policies.store_policy
  policy_stored p = elim (Bool-cases (is_node p.node_id q)) [
    | inr e ↦ rw (e, Sqlite.store_policy, referring) (inl (refl, refl))
    | inl e ↦
        rw (e, Sqlite.store_policy, referring)
          (inr (
            refl,
            inl (ap (λ n. ok (Outcome.version n)) (next_of json q m r p.node_id)),
            with_policy json q m r p,
          ))
  ]

  pub deployed :
      (d : DeploymentRecord)
      → Simulates json
          (sql_step texts json (Call.record_deployment d) q)
          (memory_step (Call.record_deployment d) m)
          q
  unfolding sql_step memory_step Sqlite.Fleet.record_deployment Deploys.record_deployment
  deployed d = elim (Bool-cases (any (λ x. x.id == d.id) q.deployments)) [
    | inl e ↦ rw (e, Sqlite.Fleet.record_deployment) (inl (refl, refl))
    | inr e ↦ elim (Bool-cases (is_node d.node_id q)) [
      | inr f ↦ rw (e, f, Sqlite.Fleet.record_deployment) (inl (refl, refl))
      | inl f ↦
          rw (e, f, Sqlite.Fleet.record_deployment)
            (inr (
              refl,
              inl refl,
              with_logs json q m r (q.deployments ++ d ∷ []) q.events q.audit_log
                  q.webhook_deliveries (m.deployments ++ d ∷ []) m.events m.audit_log
                  m.webhook_deliveries,
            ))
    ]
  ]

  pub logged :
      (e : PersistentEvent)
      → Simulates json
          (sql_step texts json (Call.store_event e) q)
          (memory_step (Call.store_event e) m)
          q
  unfolding sql_step memory_step Sqlite.Logs.store_event Logs.store_event
  logged e = elim (Bool-cases (any (λ x. x.id == e.id) q.events)) [
    | inl t ↦ rw (t, Sqlite.Logs.store_event) (inl (refl, refl))
    | inr t ↦
        rw (t, Sqlite.Logs.store_event)
          (inr (
            refl,
            inl refl,
            with_logs json q m r q.deployments (q.events ++ e ∷ []) q.audit_log q.webhook_deliveries
                m.deployments (Logs.store_event e m).1.events m.audit_log m.webhook_deliveries,
          ))
  ]

  pub audited :
      (a : AuditEntry)
      → Simulates json
          (sql_step texts json (Call.store_audit a) q)
          (memory_step (Call.store_audit a) m)
          q
  unfolding sql_step memory_step Sqlite.Logs.store_audit Logs.store_audit
  audited a = elim (Bool-cases (any (λ x. x.id == a.id) q.audit_log)) [
    | inl t ↦ rw (t, Sqlite.Logs.store_audit) (inl (refl, refl))
    | inr t ↦
        rw (t, Sqlite.Logs.store_audit)
          (inr (
            refl,
            inl refl,
            with_logs json q m r q.deployments q.events (q.audit_log ++ a ∷ []) q.webhook_deliveries
                m.deployments m.events (Logs.store_audit a m).1.audit_log m.webhook_deliveries,
          ))
  ]

  pub delivered :
      (w : WebhookDelivery)
      → Simulates json
          (sql_step texts json (Call.store_webhook_delivery w) q)
          (memory_step (Call.store_webhook_delivery w) m)
          q
  unfolding sql_step memory_step Sqlite.Logs.store_webhook_delivery Logs.store_webhook_delivery
  delivered w = elim (Bool-cases (any (λ x. x.id == w.id) q.webhook_deliveries)) [
    | inl t ↦ rw (t, Sqlite.Logs.store_webhook_delivery) (inl (refl, refl))
    | inr t ↦
        rw (t, Sqlite.Logs.store_webhook_delivery)
          (inr (
            refl,
            inl refl,
            with_logs json q m r q.deployments q.events q.audit_log (q.webhook_deliveries ++ w ∷ [])
                m.deployments m.events m.audit_log (m.webhook_deliveries ++ w ∷ []),
          ))
  ]

  pub begun :
      (k : String)
      → Simulates json
          (sql_step texts json (Call.begin_deploy k) q)
          (memory_step (Call.begin_deploy k) m)
          q
  unfolding sql_step memory_step Sqlite.begin_deploy Deploys.begin_deploy
  begun k = rw r.deploying (elim (Bool-cases (set_insert k m.deploying).1) [
    | inl e ↦ rw e (inr (refl, inl refl, with_deploying json q m r _))
    | inr e ↦ rw e (inr (refl, inl refl, with_deploying json q m r _))
  ])
