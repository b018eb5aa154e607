-- ===== src/Tests/Agents.antt =====
-- The theorems about the agent at concrete inputs.
use pacinet.Prelude.{
  ◌≡◌, ◌≤◌, ◌<◌, Bool, not, eqb, refl, ok, true, false, none, some, [], ◌∷◌, length,
}
use pacinet.HashMap.{get}
use pacinet.Model.State.{error, active}
use pacinet.Storage.State.{MemoryStorage, new}
use pacinet.Service.Agents.{ControllerService, heartbeat}
use pacinet.Agent.{
  Tools, Link, AgentState, initial_state, deploy_rules, get_status, heartbeat_request, uptime_of,
  beat,
}
use pacinet.Agent.Beats.{beat_lem, deploy_rules-heartbeat}
use pacinet.Tests.Data.{node}

abbrev tools : Tools
tools = record {
  run = λ rules options. ok (record {
    success = true;
    message = "compiled";
    warnings = [];
    rules_count = some 1;
    output_dir = none;
  });
  policy_hash = λ rules. "hash";
}

abbrev agent : AgentState
agent = initial_state "a" "http://controller:50054" 1000000000 "0.1.0"

abbrev service : ControllerService
service = record { counter_cache = none; has_event_bus = true }

abbrev failed_node : MemoryStorage
failed_node = record new { nodes = ("a", node "a" error 1) ∷ [] }

deploy_rules-heartbeat_example :
    let (response, after) = deploy_rules tools 5 "rules: []" none agent in
    let r =
      heartbeat
        (λ e. "error")
        4000000000
        service
        (heartbeat_request 4000000000 after)
        failed_node in
    (r.0.0 ≡ ok tt)
    × (get "a" r.1.nodes
        ≡ some (record (node "a" error 1) {
          last_heartbeat = 4000000000;
          state = active;
          uptime_seconds = uptime_of 4000000000 agent;
        }))
    × ((get_status 4000000000 after).active_policy_hash ≡ "hash")
unfolding deploy_rules get
deploy_rules-heartbeat_example =
    deploy_rules-heartbeat tools 5 4000000000 "rules: []" none agent (λ e. "error") service
      failed_node (node "a" error 1) refl refl

-- The controller is reached from the second attempt on, and answers the third.
abbrev link : Link
link = record { connects = λ i. not (eqb i 0); answers = λ i request. eqb i 2 }

beat_lem_example :
    let b = beat link (heartbeat_request 4000000000 agent) false in
    (2 < 3
      → link.connects 2 ≡ true
      → link.answers 2 (heartbeat_request 4000000000 agent) ≡ true
      → b.succeeded ≡ true)
    × (◌≡◌ {A = Bool} false false → b.succeeded ≡ b.connected)
    × (length b.sent ≤ 3)
beat_lem_example = beat_lem link (heartbeat_request 4000000000 agent) false 2
