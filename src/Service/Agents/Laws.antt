-- ===== src/Service/Agents/Laws.antt =====
-- What the calls of the agents leave behind.
use pacinet.Prelude.{
  ℕ, String, ◌==◌, ◌≡◌, ◌≢◌, ◌↔◌, ◌⊎◌, inl, inr, true, false, none, some, [], ◌∷◌, ok, err, arith,
  eq_refl, Option-cases, if◌then◌else◌,
}
use pacinet.HashMap.{get}
use pacinet.HashMap.Laws.{get-insert}
use pacinet.Error.{PaciNetError, StatusCode}
use pacinet.Model.{DateTime, Node, new_node}
use pacinet.Model.State.{NodeState, display, same_state}
use pacinet.Storage.State.{MemoryStorage}
use pacinet.Storage.Nodes.{update_heartbeat, get_node}
use pacinet.Storage.Nodes
use pacinet.Events.Fleet.{NodeEvent}
use pacinet.Service.{Status, blocking}
use pacinet.Service.Agents.{
  RegisterNodeRequest, HeartbeatRequest, ControllerService, register_node, reported_state,
  state_change, heartbeat,
}

-- The node as a heartbeat leaves it.
abbrev pub beaten : DateTime → HeartbeatRequest → Node → Node
beaten now req node = record node {
  last_heartbeat = now;
  state = reported_state req.state;
  uptime_seconds = req.uptime_seconds;
}

same_state_iff : (a b : NodeState) → (same_state a b ≡ true) ↔ (a ≡ b)
same_state_iff a b = (ground arith, ground arith)

abbrev pub not_registered : Status
not_registered = record { code = StatusCode.not_found; message = "Node not registered" }

-- A heartbeat of a node that is there is acknowledged, sets its time, its uptime and the state that it
-- reports, whatever the state was before, leaves the other nodes alone, and with an event bus emits a
-- change of state, from the old state to the reported one, exactly if the two differ; that of an unknown
-- node is refused with NOT_FOUND, emits nothing and changes nothing.
pub heartbeat_lem :
    (error_text : PaciNetError → String) (now : DateTime) (service : ControllerService)
    (req : HeartbeatRequest) (j : String) (s : MemoryStorage)
    → let r = heartbeat error_text now service req s in
      ((node : Node) × (get req.node_id s.nodes ≡ some node)
        × (r.0.0 ≡ ok tt)
        × (service.has_event_bus ≡ true
            → node.state ≢ reported_state req.state
            → r.0.1
              ≡ NodeEvent.state_changed node.node_id node.hostname node.labels
                  (display node.state)
                  (display (reported_state req.state))
                  now
                ∷ [])
        × ((service.has_event_bus ≡ false) ⊎ (node.state ≡ reported_state req.state) → r.0.1 ≡ [])
        × (get j r.1.nodes
            ≡ (if req.node_id == j then some (beaten now req node) else get j s.nodes)))
      ⊎ ((get req.node_id s.nodes ≡ none) × (r ≡ ((err not_registered, []), s)))
unfolding heartbeat update_heartbeat get_node blocking state_change
heartbeat_lem error_text now service req j s = elim (Option-cases (get req.node_id s.nodes)) [
  | inl e ↦ inr (e, ground arith)
  | inr (node, e) ↦
      let stored = get-insert req.node_id j (beaten now req node) s.nodes in
      let same = same_state_iff node.state (reported_state req.state) in
      inl (
        node,
        e,
        ground arith,
        λ bus differs. ground (arith, same, bus, differs),
        λ quiet. ground (arith, same, quiet),
        ground (arith, stored),
      )
]

abbrev pub joined : String → DateTime → RegisterNodeRequest → Node
joined uuid now req =
    record (new_node uuid now req.hostname req.agent_address req.labels req.pacgate_version) {
      capabilities = req.capabilities;
    }

-- A node that registers is stored under its fresh identifier as registered, in the place of a node that
-- had it, the others stay; and its first heartbeat that reports a state but `registered`, to a
-- service with an event bus, is acknowledged and emits the change from `registered` to that state.
pub register_node-heartbeat :
    (error_text : PaciNetError → String) (uuid : String) (now later : DateTime)
    (cache : ControllerService) (req : RegisterNodeRequest) (state uptime : ℕ) (j : String)
    (s : MemoryStorage)
    → cache.has_event_bus ≡ true
    → same_state NodeState.registered (reported_state state) ≡ false
    → let r = register_node error_text uuid now cache req s in
      let b =
        heartbeat error_text later cache
          (record { node_id = uuid; state = state; uptime_seconds = uptime })
          r.1 in
      (r.0 ≡ (ok uuid, NodeEvent.registered uuid req.hostname req.labels now ∷ []))
      × (get j r.1.nodes ≡ (if uuid == j then some (joined uuid now req) else get j s.nodes))
      × (b.0 ≡ (
        ok tt,
        NodeEvent.state_changed uuid req.hostname req.labels "registered"
              (display (reported_state state))
              later
            ∷ [],
      ))
unfolding register_node heartbeat update_heartbeat Nodes.register_node new_node get_node blocking
    state_change display
register_node-heartbeat error_text uuid now later service req state uptime j s bus differs =
    let stored = get-insert uuid uuid (joined uuid now req) s.nodes in
    let others = get-insert uuid j (joined uuid now req) s.nodes in
    ground (arith, stored, others, eq_refl uuid)
