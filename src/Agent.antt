-- ===== src/Agent.antt =====
-- The agent of a node: pacinet-agent/src/service.rs, the heartbeats of pacinet-agent/src/main.rs, and the
-- backends of pacinet-agent/src/pacgate.rs. What the compiler `pacgate` answers, the hash of a policy, and the
-- connection to the controller are arguments; the CPU load, which the controller does not store, is left out.
pub mod Beats
use pacinet.Prelude.{
  ℕ, zero, suc, ◌+◌, ◌-◌, ◌/◌, String, Bool, true, false, not, ◌||◌, Option, none, some, List, [],
  ◌∷◌, Result, ok, err, is_some, if◌then◌else◌,
}
use pacinet.Text.{◌<>◌}
use pacinet.Model.{DateTime, RuleCounter, FlowCounter, nanos_per_second}
use pacinet.Deploy.Options.{CompileOptions, default_options}
use pacinet.Service.Agents.{HeartbeatRequest}

pub record CompileResult : Type 0 where
  pub success : Bool
  pub message : String
  pub warnings : List String
  pub rules_count : Option ℕ
  pub output_dir : Option String

pub data PacGateBackend : Type 0 where
  real : PacGateBackend
  mock : Bool → PacGateBackend

-- A run of the compiler on a text of rules, and the hash of a policy.
pub record Tools : Type 0 where
  pub run : String → CompileOptions → Result CompileResult String
  pub policy_hash : String → String

unfoldable pub compile :
    Tools → PacGateBackend → String → CompileOptions → Result CompileResult String
compile tools real rules_yaml options = tools.run rules_yaml options
compile tools (mock true) rules_yaml options = ok (record {
  success = true;
  message = "Mock compilation successful";
  warnings = [];
  rules_count = some 3;
  output_dir = some "/tmp/mock-output";
})
compile tools (mock false) rules_yaml options = ok (record {
  success = false;
  message = "Mock compilation failed: syntax error";
  warnings = [];
  rules_count = none;
  output_dir = none;
})

pub record AgentState : Type 0 where
  pub node_id : String
  pub controller_address : String
  pub pacgate : PacGateBackend
  pub active_policy_hash : Option String
  pub active_rules_yaml : Option String
  pub deployed_at : Option DateTime
  pub start_time : DateTime
  pub counters : List RuleCounter
  pub flow_counters : List FlowCounter
  pub pacgate_version : String

-- The state that `main` starts with.
abbrev pub initial_state : String → String → DateTime → String → AgentState
initial_state node_id controller now pacgate_version = record {
  node_id = node_id;
  controller_address = controller;
  pacgate = real;
  active_policy_hash = none;
  active_rules_yaml = none;
  deployed_at = none;
  start_time = now;
  counters = [];
  flow_counters = [];
  pacgate_version = pacgate_version;
}

pub record DeployRulesResponse : Type 0 where
  pub success : Bool
  pub message : String
  pub warnings : List String

-- `unwrap_or_default`
abbrev pub options_or_default : Option CompileOptions → CompileOptions
options_or_default none = default_options
options_or_default (some o) = o

unfoldable pub deploy_rules :
    Tools
    → DateTime
    → String
    → Option CompileOptions
    → AgentState
    → DeployRulesResponse × AgentState
unfolding compile
deploy_rules tools now rules_yaml options s =
    elim (compile tools s.pacgate rules_yaml (options_or_default options)) [
      | ok result ↦ (
        record { success = result.success; message = result.message; warnings = result.warnings },
        if result.success
            then record s {
              active_policy_hash = some (tools.policy_hash rules_yaml);
              active_rules_yaml = some rules_yaml;
              deployed_at = some now;
            }
            else s,
      )
      | err e ↦ (record { success = false; message = "PacGate error: " <> e; warnings = [] }, s)
    ]

-- The numbers of `NodeState::Active` and `NodeState::Online` in proto/pacinet.proto.
abbrev pub reported_number : AgentState → ℕ
reported_number s = if is_some s.active_policy_hash then 4 else 2

-- The whole seconds since the start.
abbrev pub uptime_of : DateTime → AgentState → ℕ
uptime_of now s = (now - s.start_time) / nanos_per_second

pub record GetStatusResponse : Type 0 where
  pub state : ℕ
  pub pacgate_version : String
  pub active_policy_hash : String
  pub uptime_seconds : ℕ

unfoldable pub get_status : DateTime → AgentState → GetStatusResponse
get_status now s = record {
  state = reported_number s;
  pacgate_version = s.pacgate_version;
  active_policy_hash = elim s.active_policy_hash [ none ↦ "" | some h ↦ h ];
  uptime_seconds = uptime_of now s;
}

abbrev pub heartbeat_request : DateTime → AgentState → HeartbeatRequest
heartbeat_request now s = record {
  node_id = s.node_id;
  state = reported_number s;
  uptime_seconds = uptime_of now s;
}

-- What becomes of the attempt of each number: whether the controller is reached, and whether it answers.
pub record Link : Type 0 where
  pub connects : ℕ → Bool
  pub answers : ℕ → HeartbeatRequest → Bool

-- A turn of the heartbeat loop: whether it succeeded, whether the client is kept, the requests sent and the
-- milliseconds waited.
pub record Beat : Type 0 where
  pub succeeded : Bool
  pub connected : Bool
  pub sent : List HeartbeatRequest
  pub waits : List ℕ

-- The loop over the delays that are left.
unfoldable pub beat_from : Link → HeartbeatRequest → ℕ → List ℕ → Bool → Beat
beat_from link request attempt [] connected = record {
  succeeded = false;
  connected = connected;
  sent = [];
  waits = [];
}
beat_from link request attempt (backoff_ms ∷ rest) connected =
    let failed = beat_from link request (suc attempt) rest false in
    if not (connected || link.connects attempt)
    then record failed { waits = backoff_ms ∷ failed.waits }
    else if link.answers attempt request
    then record { succeeded = true; connected = true; sent = request ∷ []; waits = [] }
    else record failed {
      sent = request ∷ failed.sent;
      waits = elim rest [ [] ↦ failed.waits | next ∷ more ↦ backoff_ms ∷ failed.waits ];
    }

unfoldable pub beat : Link → HeartbeatRequest → Bool → Beat
unfolding beat_from
beat link request connected = beat_from link request 0 (500 ∷ 1000 ∷ 2000 ∷ []) connected
