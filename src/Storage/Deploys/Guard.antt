-- ===== src/Storage/Deploys/Guard.antt =====
-- The deploy guard: one deployment of a node at a time.
use pacinet.Prelude.{
  String, ◌==◌, ◌≡◌, ◌∙◌, ◌≢◌, eq_iff, eq_refl, true, false, List, [], ◌∷◌, arith, ok, err, All,
  if◌then◌else◌,
}
use pacinet.HashMap.{set_contains}
use pacinet.HashMap.Laws.{set_contains-insert, set_contains-remove, set_insert-new}
use pacinet.Error.{concurrent_deploy}
use pacinet.Storage.State.{MemoryStorage}
use pacinet.Storage.Deploys.{begin_deploy, end_deploy, record_deployment}
use pacinet.Storage.Nodes.{
  register_node, remove_node, update_heartbeat, update_node_state, mark_stale_nodes,
  update_annotations, store_counters, store_flow_counters,
}
use pacinet.Storage.Policies.{store_policy}
use pacinet.Storage.Machines.{
  store_fsm_definition, delete_fsm_definition, store_fsm_instance, update_fsm_instance,
}
use pacinet.Storage.Logs.{
  store_event, prune_events, store_audit, store_template, delete_template, store_webhook_delivery,
}
use pacinet.Storage.Run.{Call, step, run}

-- `begin_deploy` succeeds exactly for a node that is not being deployed, and after the call the node is; the
-- other nodes' guards stay.
pub begin_deploy_lem :
    (k j : String) (s : MemoryStorage)
    → ((begin_deploy k s).0
        ≡ (if set_contains k s.deploying then err (concurrent_deploy k) else ok tt))
      × (set_contains j (begin_deploy k s).1.deploying
          ≡ (if k == j then true else set_contains j s.deploying))
unfolding begin_deploy
begin_deploy_lem k j s =
    (ground (arith, set_insert-new k s.deploying), set_contains-insert k j s.deploying)

-- A call that does not give up the guard of the node `k`: only the end of a deployment of `k` and
-- the removal of `k` do.
abbrev pub KeepsGuard : String → Call → Type 0
KeepsGuard k (Call.end_deploy j) = j ≢ k
KeepsGuard k (Call.remove_node j) = j ≢ k
KeepsGuard k _ = Unit

guard_held :
    (k : String) (c : Call) (s : MemoryStorage)
    → KeepsGuard k c
    → set_contains k s.deploying ≡ true
    → set_contains k (step c s).deploying ≡ true
unfolding step register_node remove_node update_heartbeat update_node_state mark_stale_nodes
    update_annotations store_counters store_flow_counters store_policy begin_deploy end_deploy
    record_deployment store_fsm_definition delete_fsm_definition store_fsm_instance
    update_fsm_instance store_event prune_events store_audit store_template delete_template
    store_webhook_delivery
guard_held k (Call.begin_deploy j) s g h = ground (arith, set_contains-insert j k s.deploying)
guard_held k (Call.end_deploy j) s g h =
    ground (arith, set_contains-remove j k s.deploying, eq_iff j k)
guard_held k (Call.remove_node j) s g h =
    ground (arith, set_contains-remove j k s.deploying, eq_iff j k)
guard_held k c s g h = ground arith

guard_held_by_run :
    (k : String) (cs : List Call) (s : MemoryStorage)
    → All (KeepsGuard k) cs
    → set_contains k s.deploying ≡ true
    → set_contains k (run cs s).deploying ≡ true
unfolding run
guard_held_by_run k [] s g h = h
guard_held_by_run k (c ∷ cs) s g h = guard_held_by_run k cs (step c s) g.1 (guard_held k c s g.0 h)

-- After a `begin_deploy` every further one of the same node is refused, whatever other calls come in
-- between, until the deployment ends or the node is removed.
pub begin_deploy_exclusive :
    (k : String) (cs : List Call) (s : MemoryStorage)
    → All (KeepsGuard k) cs
    → (begin_deploy k (run cs (begin_deploy k s).1)).0 ≡ err (concurrent_deploy k)
begin_deploy_exclusive k cs s g =
    (begin_deploy_lem k k (run cs (begin_deploy k s).1)).0
    ∙ rw (guard_held_by_run k cs (begin_deploy k s).1 g taken)
  where
    taken : set_contains k (begin_deploy k s).1.deploying ≡ true
    taken = simp ((begin_deploy_lem k k s).1, eq_refl)

-- The end of a deployment lets the next one of the node begin, and frees no other node.
pub end_deploy_lem :
    (k j : String) (s : MemoryStorage)
    → ((begin_deploy k (end_deploy k s)).0 ≡ ok tt)
      × (set_contains j (end_deploy k s).deploying
          ≡ (if k == j then false else set_contains j s.deploying))
unfolding end_deploy
end_deploy_lem k j s = (
  (begin_deploy_lem k k (end_deploy k s)).0 ∙ simp (set_contains-remove, eq_refl),
  set_contains-remove k j s.deploying,
)
