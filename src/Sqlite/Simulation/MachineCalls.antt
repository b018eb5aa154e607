-- ===== src/Sqlite/Simulation/MachineCalls.antt =====
-- Each call on definitions and instances does to the SQLite storage what it does to the memory storage.
use pacinet.Prelude.{
  String, ◌==◌, ◌≡◌, ◌∙◌, inl, inr, refl, ap, ok, arith, Bool-cases, is_some, Option, none, some,
  Result-cases,
}
use pacinet.HashMap.{get, insert, contains_key}
use pacinet.HashMap.Laws.{get-insert, get-remove}
use pacinet.Fsm.Definition.{FsmDefinition}
use pacinet.Fsm.Instance.{FsmInstance}
use pacinet.Storage.State.{MemoryStorage}
use pacinet.Storage.Run.{Call}
use pacinet.Storage.Machines
use pacinet.Sqlite.{SqliteStorage, Constraints, DefinitionRow, is_node, referring}
use pacinet.Sqlite
use pacinet.Sqlite.Machines.{DefinitionJson, read_row}
use pacinet.Sqlite.Calls.{Outcome, IsReadBack, sql_step, memory_step}
use pacinet.Sqlite.Refines.{
  Refines, same-insert, same-contains_key, with_definitions, with_instances,
}
use pacinet.Sqlite.Simulation.{Simulates}

module _ (texts : Constraints) (json : DefinitionJson) (q : SqliteStorage) (m : MemoryStorage)
    (r : Refines json q m) where
  same_instances :
      (i : FsmInstance) (k : String)
      → get k (insert i.instance_id i q.fsm_instances)
        ≡ get k (insert i.instance_id i m.fsm_instances)
  same_instances i = same-insert q.fsm_instances m.fsm_instances r.instances i.instance_id i

  pub created :
      (i : FsmInstance)
      → Simulates json
          (sql_step texts json (Call.store_fsm_instance i) q)
          (memory_step (Call.store_fsm_instance i) m)
          q
  unfolding sql_step memory_step Sqlite.Machines.store_fsm_instance Machines.store_fsm_instance
  created i = elim (Bool-cases (contains_key i.instance_id q.fsm_instances)) [
    | inl e ↦ rw (e, Sqlite.Machines.store_fsm_instance) (inl (refl, refl))
    | inr e ↦
        rw (e, Sqlite.Machines.store_fsm_instance)
          (inr (refl, inl refl, with_instances json q m r _ _ (same_instances i)))
  ]

  pub updated :
      (i : FsmInstance)
      → Simulates json
          (sql_step texts json (Call.update_fsm_instance i) q)
          (memory_step (Call.update_fsm_instance i) m)
          q
  unfolding sql_step memory_step Sqlite.Machines.update_fsm_instance Machines.update_fsm_instance
  updated i =
      let same = same-contains_key q.fsm_instances m.fsm_instances r.instances i.instance_id in
      elim (Bool-cases (contains_key i.instance_id m.fsm_instances)) [
        | inl e ↦
            rw (same ∙ e, e, Sqlite.Machines.update_fsm_instance, Machines.update_fsm_instance)
              (inr (refl, inl refl, with_instances json q m r _ _ (same_instances i)))
        | inr e ↦
            rw (same ∙ e, e, Sqlite.Machines.update_fsm_instance, Machines.update_fsm_instance)
              (inr (refl, inl refl, r))
      ]

  pub defined :
      (d : FsmDefinition)
      → IsReadBack json (Call.store_fsm_definition d)
      → Simulates json
          (sql_step texts json (Call.store_fsm_definition d) q)
          (memory_step (Call.store_fsm_definition d) m)
          q
  unfolding sql_step memory_step Sqlite.Machines.store_fsm_definition Machines.store_fsm_definition
      read_row
  defined d (text, written, read) =
      rw (written, Sqlite.Machines.store_fsm_definition)
        (inr (
          refl,
          inl refl,
          with_definitions json q m r _ _ (λ k. elim (Bool-cases (d.name == k)) [
            | inl e ↦ simp (get-insert, e) (rw (read, read_row) refl)
            | inr e ↦ simp (get-insert, e) (r.definitions k)
          ]),
        ))

  same_present :
      (k : String) → is_some (get k q.fsm_definitions) ≡ is_some (get k m.fsm_definitions)
  unfolding read_row
  same_present k = present (get k q.fsm_definitions) (get k m.fsm_definitions) (r.definitions k)
    where
      present :
          (row : Option DefinitionRow) (d : Option FsmDefinition)
          → read_row json row ≡ ok d
          → is_some row ≡ is_some d
      present none d h = ground (arith, h)
      present (some row) d h = elim (Result-cases (json.from_json row.definition_json)) [
        | inl (x, e) ↦ ground (arith, h, e)
        | inr (x, e) ↦ absurd (ground (arith, h, e))
      ]

  pub dropped :
      (k : String)
      → Simulates json
          (sql_step texts json (Call.delete_fsm_definition k) q)
          (memory_step (Call.delete_fsm_definition k) m)
          q
  unfolding sql_step memory_step Sqlite.Machines.delete_fsm_definition
      Machines.delete_fsm_definition read_row
  dropped k = inr (
    refl,
    inl (ap (λ b. ok (Outcome.flag b)) (same_present k)),
    with_definitions json q m r _ _ (λ j. elim (Bool-cases (k == j)) [
      | inl e ↦ simp (get-remove, e) refl
      | inr e ↦ simp (get-remove, e) (r.definitions j)
    ]),
  )
