-- ===== src/Storage/Run/Preserves.antt =====
-- Every writing method keeps the invariant of `MemoryStorage`, and so does every run.
use pacinet.Prelude.{
  leb, String, ℕ, ◌≡◌, List, [], ◌∷◌, some, arith, length-keep-le, Option-cases, Bool-cases, inl,
  inr, refl,
}
use pacinet.HashMap.{HashMap, get, insert, contains_key}
use pacinet.HashMap.Keyed.{
  IsKeyedBy, IsKeyedBy-insert, IsKeyedBy-remove, IsKeyedBy-rewrite, IsKeyedBy-nil,
}
use pacinet.Model.{DateTime, Node}
use pacinet.Model.State.{NodeState, can_transition_to}
use pacinet.Fsm.Instance.{FsmInstance}
use pacinet.Storage.State.{MemoryStorage, max_memory_events, max_memory_audit, new}
use pacinet.Storage.Policies.{store_policy}
use pacinet.Storage.Nodes.{
  register_node, remove_node, update_heartbeat, update_node_state, mark_stale_nodes,
  update_annotations, store_counters, store_flow_counters,
}
use pacinet.Storage.Machines.{
  update_fsm_instance, store_fsm_instance, store_fsm_definition, delete_fsm_definition,
}
use pacinet.Storage.Logs.{
  store_event, store_audit, prune_events, store_template, delete_template, store_webhook_delivery,
}
use pacinet.Storage.Logs.Bounds.{push_bounded-le}
use pacinet.Storage.Deploys.{record_deployment, begin_deploy, end_deploy}
use pacinet.Storage.Run.{Call, step, run}
use pacinet.Storage.Run.Invariant.{IsValid}
use pacinet.Storage.Run.Steps.{
  store_policy-IsPolicyStore, remove-IsPolicyStore, mark_stale-IsKeyedBy,
}

-- A map of nodes that is put in the place of the old one.
with_nodes :
    (s : MemoryStorage) (m : HashMap Node)
    → IsValid s
    → IsKeyedBy (λ n. n.node_id) m
    → IsValid (record s { nodes = m })
with_nodes s m h k = ground arith

with_instance :
    (i : FsmInstance) (s : MemoryStorage)
    → IsValid s
    → IsValid (record s { fsm_instances = insert i.instance_id i s.fsm_instances })
with_instance i s h =
    ground (
      arith,
      IsKeyedBy-insert (λ m. m.instance_id) i.instance_id i s.fsm_instances refl h.instances,
    )

-- A node that is read, changed in other fields than its name, and written back.
rewritten :
    (k : String) (n w : Node) (s : MemoryStorage)
    → IsValid s
    → get k s.nodes ≡ some n
    → w.node_id ≡ n.node_id
    → IsValid (record s { nodes = insert k w s.nodes })
rewritten k n w s h e q =
    with_nodes s _ h (IsKeyedBy-rewrite (λ m. m.node_id) k n w s.nodes e q h.nodes)

update_heartbeat-IsValid :
    (now : DateTime) (k : String) (st : NodeState) (up : ℕ) (s : MemoryStorage)
    → IsValid s
    → IsValid (update_heartbeat now k st up s).1
unfolding update_heartbeat
update_heartbeat-IsValid now k st up s h = elim (Option-cases (get k s.nodes)) [
  | inl e ↦ rw (e, update_heartbeat) h
  | inr (n, e) ↦ rw (e, update_heartbeat) (rewritten k n _ s h e refl)
]

update_node_state-IsValid :
    (k : String) (st : NodeState) (s : MemoryStorage)
    → IsValid s
    → IsValid (update_node_state k st s).1
unfolding update_node_state
update_node_state-IsValid k st s h = elim (Option-cases (get k s.nodes)) [
  | inl e ↦ rw (e, update_node_state) h
  | inr (n, e) ↦
      rw (e, update_node_state)
        (elim (Bool-cases (can_transition_to n.state st)) [
          | inl c ↦ rw c (rewritten k n _ s h e refl)
          | inr c ↦ rw c h
        ])
]

update_annotations-IsValid :
    (k : String) (set_entries : HashMap String) (removed : List String) (s : MemoryStorage)
    → IsValid s
    → IsValid (update_annotations k set_entries removed s).1
unfolding update_annotations
update_annotations-IsValid k set_entries removed s h = elim (Option-cases (get k s.nodes)) [
  | inl e ↦ rw (e, update_annotations) h
  | inr (n, e) ↦ rw (e, update_annotations) (rewritten k n _ s h e refl)
]

update_fsm_instance-IsValid :
    (i : FsmInstance) (s : MemoryStorage) → IsValid s → IsValid (update_fsm_instance i s).1
unfolding update_fsm_instance
update_fsm_instance-IsValid i s h = elim (Bool-cases (contains_key i.instance_id s.fsm_instances)) [
  | inl e ↦ rw e (with_instance i s h)
  | inr e ↦ rw e h
]

-- Any call keeps the invariant.
pub step-IsValid : (c : Call) (s : MemoryStorage) → IsValid s → IsValid (step c s)
unfolding step register_node remove_node store_counters store_flow_counters mark_stale_nodes
    store_policy record_deployment begin_deploy end_deploy store_fsm_definition
    delete_fsm_definition store_fsm_instance update_fsm_instance store_event prune_events
    store_audit store_template delete_template store_webhook_delivery
step-IsValid (Call.register_node n) s h =
    with_nodes s _ h (IsKeyedBy-insert (λ m. m.node_id) n.node_id n s.nodes refl h.nodes)
step-IsValid (Call.remove_node k) s h = ground (
  arith,
  IsKeyedBy-remove (λ m. m.node_id) k s.nodes h.nodes,
  remove-IsPolicyStore k s.policies s.policy_versions h.policies,
)
step-IsValid (Call.update_heartbeat now k st up) s h = update_heartbeat-IsValid now k st up s h
step-IsValid (Call.update_node_state k st) s h = update_node_state-IsValid k st s h
step-IsValid (Call.mark_stale_nodes now d) s h =
    with_nodes s _ h (mark_stale-IsKeyedBy now d s.nodes h.nodes)
step-IsValid (Call.update_annotations k e r) s h = update_annotations-IsValid k e r s h
step-IsValid (Call.store_policy p) s h = ground (arith, store_policy-IsPolicyStore p s h.policies)
step-IsValid (Call.store_fsm_definition d) s h =
    ground (arith, IsKeyedBy-insert (λ m. m.name) d.name d s.fsm_definitions refl h.definitions)
step-IsValid (Call.delete_fsm_definition n) s h =
    ground (arith, IsKeyedBy-remove (λ m. m.name) n s.fsm_definitions h.definitions)
step-IsValid (Call.store_fsm_instance i) s h = with_instance i s h
step-IsValid (Call.update_fsm_instance i) s h = update_fsm_instance-IsValid i s h
step-IsValid (Call.store_event e) s h = ground (arith, push_bounded-le max_memory_events e s.events)
step-IsValid (Call.prune_events t) s h =
    ground (arith, length-keep-le (λ e. leb t e.timestamp) s.events)
step-IsValid (Call.store_audit e) s h =
    ground (arith, push_bounded-le max_memory_audit e s.audit_log)
step-IsValid c s h = ground arith

run-IsValid_from : (cs : List Call) (s : MemoryStorage) → IsValid s → IsValid (run cs s)
unfolding run
run-IsValid_from [] s h = h
run-IsValid_from (c ∷ cs) s h = run-IsValid_from cs (step c s) (step-IsValid c s h)

pub new-IsValid : IsValid new
new-IsValid = record {
  nodes = IsKeyedBy-nil (λ n. n.node_id);
  policies = record {
    policies_keyed = IsKeyedBy-nil (λ p. p.node_id);
    versions_functional = tt;
    numbered = tt;
    agree = λ k. unfold get in tt;
  };
  definitions = IsKeyedBy-nil (λ d. d.name);
  instances = IsKeyedBy-nil (λ i. i.instance_id);
  events_bounded = omega arith;
  audit_bounded = omega arith;
}

-- Whatever calls a fresh storage receives, in any order, it ends in a valid state.
pub run-IsValid : (cs : List Call) → IsValid (run cs new)
run-IsValid cs = run-IsValid_from cs new new-IsValid
