-- ===== src/Tests/Data.antt =====
-- Two nodes, policies, machines and the world around them.
use pacinet.Prelude.{◌≢◌, false≢true, ap, ◌==◌, String, true, false, none, some, List, [], ◌∷◌}
use pacinet.Model.{DateTime, Node, Policy, PersistentEvent, CounterSnapshot}
use pacinet.Model.State.{NodeState, online, active}
use pacinet.Fsm.Definition.{FsmDefinition, FsmKind}
use pacinet.Fsm.Status.{FsmInstanceStatus}
use pacinet.Fsm.Instance.{FsmInstance, FsmContext}
use pacinet.Storage.State.{MemoryStorage, new}
use pacinet.Storage.Run.{Call, run}
use pacinet.Deploy.Node.{Env, answered}
use pacinet.Counters.Cache.{CounterSnapshotCache}
use pacinet.Counters.Rate.{Floats}
use pacinet.Engine.Transitions.{World}

abbrev pub node : String → NodeState → DateTime → Node
node id state heartbeat = record {
  node_id = id;
  hostname = id;
  agent_address = "10.0.0.1:50052";
  labels = ("env", "prod") ∷ [];
  capabilities = [];
  state = state;
  registered_at = 1;
  last_heartbeat = heartbeat;
  pacgate_version = "0.1.0";
  uptime_seconds = 0;
  annotations = [];
}

abbrev pub policy : String → String → Policy
policy id rules = record {
  node_id = id;
  rules_yaml = rules;
  policy_hash = "hash";
  deployed_at = 5;
  counters_enabled = false;
  rate_limit_enabled = false;
  conntrack_enabled = false;
  axi_enabled = false;
  ports = 1;
  target = "standalone";
  dynamic = false;
  dynamic_entries = 16;
  width = 8;
  ptp = false;
  rss = false;
  rss_queues = 4;
  int = false;
  int_switch_id = 0;
}

abbrev pub event : String → DateTime → PersistentEvent
event id at = record {
  id = id;
  event_type = "node.registered";
  source = "a";
  payload = "{}";
  timestamp = at;
}

abbrev pub context : FsmContext
context = record {
  rules_yaml = none;
  policy_hash = none;
  compile_options = none;
  target_nodes = "a" ∷ [];
  deployed_nodes = [];
  failed_nodes = [];
  last_action_result = none;
  batch_cursor = 0;
  counter_condition_first_true = [];
}

abbrev pub instance_one : FsmInstance
instance_one = record {
  instance_id = "i";
  definition_name = "canary";
  current_state = "start";
  status = FsmInstanceStatus.running;
  created_at = 1;
  updated_at = 1;
  context = context;
  history = [];
}

abbrev pub canary : FsmDefinition
canary = record {
  name = "canary";
  description = "";
  kind = FsmKind.deployment;
  initial = "start";
  states =
      (
        "start",
        record {
          action = none;
          transitions = record { to = "done"; when = none; after = some "5m" } ∷ [];
          terminal = false;
        },
      )
      ∷ ("done", record { action = none; transitions = []; terminal = true })
      ∷ [];
}

-- Two registered nodes, one with a policy, and an instance.
abbrev pub calls : List Call
calls =
    Call.register_node (node "a" active 100)
    ∷ Call.register_node (node "b" online 900)
    ∷ Call.store_policy (policy "a" "old")
    ∷ Call.store_fsm_instance instance_one
    ∷ []

abbrev pub fleet : MemoryStorage
fleet = run calls new

abbrev pub env : Env
env = record {
  now = 7;
  uuid = "u";
  hash = λ s. s;
  agent = λ address rules options. answered true "ok" [];
  error_text = λ e. "error";
  deploy_timeout = 30000000000;
  has_tls = false;
}

abbrev pub floats : Floats
floats = record {
  of_integer = λ negative n. n;
  multiply = λ a b. a;
  divide = λ a b. a;
  sum = λ xs. 0;
  ceiling = λ a. a;
  is_at_most = λ a b. true;
}

abbrev pub cache : CounterSnapshotCache
cache = record { deques = []; retention = 60; max_per_node = 2 }

abbrev pub world : World
world = record {
  evaluation = record { now = 9; cache = cache; floats = floats; from_std = λ n. n };
  uuid = "i2";
  error_text = λ e. "error";
  envs = λ n. env;
}

abbrev pub snapshot : DateTime → CounterSnapshot
snapshot at = record { node_id = "a"; collected_at = at; counters = [] }

pub a_is_not_b : ◌≢◌ {A = String} "a" "b"
a_is_not_b h = false≢true (ap (λ x. x == "b") h)

pub b_is_not_a : ◌≢◌ {A = String} "b" "a"
b_is_not_a h = false≢true (ap (λ x. x == "a") h)
