-- ===== src/Service/Agents.antt =====
-- `ControllerService` of pacinet-server/src/service.rs, which the agents call: registration, heartbeats and
-- counter reports. Of the messages of proto/pacinet.proto the fields that a handler reads are modelled.
pub mod Laws
use pacinet.Prelude.{
  ℕ, String, Bool, true, false, not, Option, none, some, List, [], ◌∷◌, map, Result, ok, err,
  if◌then◌else◌, eqb,
}
use pacinet.HashMap.{HashMap}
use pacinet.Error.{PaciNetError, StatusCode}
use pacinet.Model.{DateTime, Node, RuleCounter, FlowCounter, CounterSnapshot, new_node}
use pacinet.Model.State.{NodeState, online, same_state, display, ProtoNodeState, from_proto}
use pacinet.Fsm.Definition.{F64}
use pacinet.Storage.State.{MemoryStorage}
use pacinet.Storage.Nodes
use pacinet.Counters.Cache.{CounterSnapshotCache, push_snapshot, latest_pair}
use pacinet.Counters.Rate.{Floats, CounterRate, calculate_rate}
use pacinet.Events.Fleet.{CounterRateData, CounterEvent, NodeEvent, registered, state_changed}
use pacinet.Service.{Status, Reply, blocking, ok_or_none}

pub record RegisterNodeRequest : Type 0 where
  pub hostname : String
  pub agent_address : String
  pub labels : HashMap String
  pub pacgate_version : String
  pub capabilities : HashMap String

pub record HeartbeatRequest : Type 0 where
  pub node_id : String
  pub state : ℕ
  pub uptime_seconds : ℕ

pub record ReportCountersRequest : Type 0 where
  pub node_id : String
  pub counters : List RuleCounter
  pub collected_at : Option DateTime
  pub flow_counters : List FlowCounter

-- The fields of the service; of the event bus, whether it is there.
pub record ControllerService : Type 0 where
  pub counter_cache : Option CounterSnapshotCache
  pub has_event_bus : Bool

-- `register_node`, with the identifier that `Node::new` draws. It answers with the node's identifier and
-- the events that it emits.
unfoldable pub register_node :
    (PaciNetError → String)
    → String
    → DateTime
    → ControllerService
    → RegisterNodeRequest
    → MemoryStorage
    → (Reply String × List NodeEvent) × MemoryStorage
unfolding blocking new_node
register_node error_text uuid now service req s =
    let created = new_node uuid now req.hostname req.agent_address req.labels req.pacgate_version in
    let (answer, t) = Nodes.register_node (record created { capabilities = req.capabilities }) s in
    elim (blocking error_text answer) [
      | err e ↦ ((err e, []), t)
      | ok node_id ↦ (
        (
          ok node_id,
          if service.has_event_bus then registered node_id req.hostname req.labels now ∷ [] else [],
        ),
        t,
      )
    ]

-- `NodeState::try_from` of the field's number.
unfoldable pub proto_of_number : ℕ → Option ProtoNodeState
proto_of_number n =
    if eqb n 0
    then some ProtoNodeState.unspecified
    else if eqb n 1
    then some ProtoNodeState.registered
    else if eqb n 2
    then some ProtoNodeState.online
    else if eqb n 3
    then some ProtoNodeState.deploying
    else if eqb n 4
    then some ProtoNodeState.active
    else if eqb n 5
    then some ProtoNodeState.error
    else if eqb n 6
    then some ProtoNodeState.offline
    else none

-- The state that a heartbeat reports.
unfoldable pub reported_state : ℕ → NodeState
unfolding proto_of_number
reported_state n = elim (proto_of_number n) [ none ↦ online | some p ↦ from_proto p ]

-- The event of a heartbeat, by the node as it was before.
unfoldable pub state_change : DateTime → NodeState → Option Node → List NodeEvent
state_change now new_state none = []
state_change now new_state (some node) =
    if same_state node.state new_state
    then []
    else state_changed node.node_id node.hostname node.labels (display node.state)
        (display new_state) now
      ∷ []

unfoldable pub heartbeat :
    (PaciNetError → String)
    → DateTime
    → ControllerService
    → HeartbeatRequest
    → MemoryStorage
    → (Reply (Unit {0}) × List NodeEvent) × MemoryStorage
unfolding blocking reported_state state_change
heartbeat error_text now service req s =
    let new_state = reported_state req.state in
    let old_node : Option Node =
      if service.has_event_bus then ok_or_none (Nodes.get_node req.node_id s) else none in
    let (answer, t) = Nodes.update_heartbeat now req.node_id new_state req.uptime_seconds s in
    elim (blocking error_text answer) [
      | err e ↦ ((err e, []), t)
      | ok found ↦ if found then ((ok tt, state_change now new_state old_node), t) else (
        (err (record { code = StatusCode.not_found; message = "Node not registered" }), []),
        t,
      )
    ]

-- A counter with its rates, which are 0 without a rate.
unfoldable pub rate_data : Floats → RuleCounter → Option CounterRate → CounterRateData
rate_data fl c rate = record {
  rule_name = c.rule_name;
  match_count = c.match_count;
  byte_count = c.byte_count;
  matches_per_second = elim rate [ none ↦ fl.of_integer false 0 | some r ↦ r.matches_per_second ];
  bytes_per_second = elim rate [ none ↦ fl.of_integer false 0 | some r ↦ r.bytes_per_second ];
}

unfoldable pub rates_of :
    Floats → Option (CounterSnapshot × CounterSnapshot) → List RuleCounter → List CounterRateData
unfolding rate_data
rates_of fl none counters = map (λ c. rate_data fl c none) counters
rates_of fl (some (older, newer)) counters =
    map (λ c. rate_data fl c (calculate_rate fl older newer c.rule_name)) counters

-- The part of `report_counters` that the counter cache takes.
unfoldable pub record_snapshot :
    Floats
    → DateTime
    → ControllerService
    → ReportCountersRequest
    → List CounterEvent × ControllerService
unfolding rates_of
record_snapshot fl now service req = elim service.counter_cache [
  | none ↦ ([], service)
  | some cache ↦
      let collected_at : DateTime = elim req.collected_at [ none ↦ now | some t ↦ t ] in
      let filled =
        push_snapshot
          (record { node_id = req.node_id; collected_at = collected_at; counters = req.counters })
          cache in
      (
        if service.has_event_bus
            then (record {
              node_id = req.node_id;
              counters = rates_of fl (latest_pair req.node_id filled) req.counters;
              collected_at = collected_at;
            })
              ∷ []
            else [],
        record service { counter_cache = some filled },
      )
]

unfoldable pub report_counters :
    (PaciNetError → String)
    → Floats
    → DateTime
    → ReportCountersRequest
    → ControllerService
    → MemoryStorage
    → (Reply (Unit {0}) × List CounterEvent) × ControllerService × MemoryStorage
unfolding blocking record_snapshot
report_counters error_text fl now req service s =
    let (events, filled) = record_snapshot fl now service req in
    let (stored, t) = Nodes.store_counters req.node_id req.counters s in
    elim (blocking error_text stored) [
      | err e ↦ ((err e, events), filled, t)
      | ok _ ↦
          let (answer, u) = Nodes.store_flow_counters req.node_id req.flow_counters t in
          ((blocking error_text answer, events), filled, u)
    ]
