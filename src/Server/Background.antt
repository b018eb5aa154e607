-- ===== src/Server/Background.antt =====
-- The background tasks of `main` in pacinet-server/src/main.rs: the loop that evaluates the state machines,
-- the one that stores events, and the one that marks stale nodes and prunes events. A task reads the flag
-- of the configuration at the start of each turn.
use pacinet.Prelude.{
  ℕ, ◌-◌, ◌*◌, String, Bool, not, some, List, [], ◌∷◌, ok, err, eqb, if◌then◌else◌,
}
use pacinet.Model.{DateTime, nanos_per_second}
use pacinet.Storage.State.{MemoryStorage}
use pacinet.Storage.Interface.{memory}
use pacinet.Storage.Nodes.{mark_stale_nodes, get_node}
use pacinet.Storage.Logs.{store_event, prune_events}
use pacinet.Counters.Cache.{CounterSnapshotCache, evict_expired}
use pacinet.Engine.Transitions.{World, evaluate_all}
use pacinet.Events.Machine.{FsmEvent, to_persistent}
use pacinet.Events.Fleet.{
  NodeEvent, CounterEvent, heartbeat_stale, counter_to_persistent, node_to_persistent,
}
use pacinet.Server.{ControllerConfig, stale_threshold}

unfoldable pub evaluate : (ℕ → World) → ControllerConfig → MemoryStorage → MemoryStorage
evaluate ws config s = if config.is_leader then evaluate_all memory ws s else s

-- What the task that stores events takes from one of the three channels.
pub data Emitted : Type 0 where
  fsm : FsmEvent → Emitted
  counter : CounterEvent → Emitted
  node : NodeEvent → Emitted

-- One turn of the task, with the fresh identifier and the JSON text of the event.
unfoldable pub persist :
    String → String → Bool → ControllerConfig → Emitted → MemoryStorage → MemoryStorage
persist uuid payload persist_counter_events config (fsm e) s =
    if config.is_leader then (store_event (to_persistent uuid payload e) s).1 else s
persist uuid payload persist_counter_events config (counter e) s =
    if not persist_counter_events
    then s
    else if config.is_leader
    then (store_event (counter_to_persistent uuid payload e) s).1
    else s
persist uuid payload persist_counter_events config (node e) s =
    if config.is_leader then (store_event (node_to_persistent uuid payload e) s).1 else s

-- The loop over the identifiers of the stale nodes.
unfoldable pub stale_events : DateTime → List String → MemoryStorage → List NodeEvent
stale_events now [] s = []
stale_events now (id ∷ ids) s =
    let rest = stale_events now ids s in
    elim (get_node id s) [
      | ok (some n) ↦ heartbeat_stale n.node_id n.hostname n.labels now ∷ rest
      | _ ↦ rest
    ]

abbrev pub nanos_per_day : ℕ
nanos_per_day = 86400 * nanos_per_second

unfoldable pub prune : DateTime → ℕ → MemoryStorage → MemoryStorage
prune now event_max_age_days s =
    if eqb event_max_age_days 0
    then s
    else (prune_events (now - event_max_age_days * nanos_per_day) s).1

-- One turn of the reaper: the events that it emits, the cache and the storage.
unfoldable pub reap :
    DateTime
    → ControllerConfig
    → ℕ
    → CounterSnapshotCache
    → MemoryStorage
    → List NodeEvent × CounterSnapshotCache × MemoryStorage
unfolding stale_events prune stale_threshold
reap now config event_max_age_days cache s =
    let kept = evict_expired now cache in
    if not config.is_leader
    then ([], kept, s)
    else (let (answer, t) = mark_stale_nodes now (stale_threshold config) s in
        let events : List NodeEvent = elim answer [
          | err _ ↦ []
          | ok stale_ids ↦ stale_events now stale_ids t
        ] in
        (events, kept, prune now event_max_age_days t))
