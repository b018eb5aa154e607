-- ===== src/Deploy/Node.antt =====
-- `deploy_to_node` of pacinet-server/src/deploy.rs, over any storage.
pub mod Outcome
pub mod Stored
pub mod Guard
pub mod Settled
use pacinet.Prelude.{
  ℕ, ◌/◌, String, Bool, true, false, ◌&&◌, Option, none, some, List, [], ◌∷◌, Result, ok, err,
  head?, if◌then◌else◌,
}
use pacinet.Text.{show_ℕ, ◌<>◌}
use pacinet.Error.{PaciNetError}
use pacinet.Model.{Node, Policy, DeploymentRecord, DateTime, Duration, nanos_per_second}
use pacinet.Model.State.{NodeState, deploying, active, error, same_state}
use pacinet.Model.Deployment.{
  DeploymentResult, success, agent_failure, agent_unreachable, timeout, is_success,
}
use pacinet.Storage.State.{Answer}
use pacinet.Storage.Interface.{Storage}
use pacinet.Deploy.Options.{
  CompileOptions, normalize_options, ensure_node_capabilities, policy_matches_request,
  requested_policy,
}

pub record DeployOutcome : Type 0 where
  pub success : Bool
  pub message : String
  pub warnings : List String
  pub result : DeploymentResult
  pub version : ℕ

-- What the request to the agent comes to: `DeployRulesResponse`, a failure to connect or to be
-- served, with its text, or no answer within the time limit.
pub data AgentReply : Type 0 where
  answered : Bool → String → List String → AgentReply
  unreachable : String → AgentReply
  no_answer : AgentReply

-- What a deployment takes from outside: the clock, a fresh identifier, the hash of `policy_hash`,
-- the agent at an address, the text of a storage error, and the configuration.
pub record Env : Type 0 where
  pub now : DateTime
  pub uuid : String
  pub hash : String → String
  pub agent : String → String → CompileOptions → AgentReply
  pub error_text : PaciNetError → String
  pub deploy_timeout : Duration
  pub has_tls : Bool

abbrev pub failure : String → DeployOutcome
failure message = record {
  success = false;
  message = message;
  warnings = [];
  result = agent_failure;
  version = 0;
}

abbrev pub no_change : String
no_change = "No change: identical policy and options already active; skipped redeploy"

abbrev pub agent_address : Env → Node → String
agent_address env node = (if env.has_tls then "https" else "http") <> "://" <> node.agent_address

-- The state that the node is moved to, and the message, the warnings and the result.
unfoldable pub read_reply : Env → AgentReply → NodeState × String × List String × DeploymentResult
read_reply env (answered true message warnings) =
    (active, message, warnings, DeploymentResult.success)
read_reply env (answered false message warnings) = (error, message, warnings, agent_failure)
read_reply env (unreachable e) = (
  error,
  "Failed to reach agent: " <> e,
  "Policy stored locally but agent unreachable" ∷ [],
  agent_unreachable,
)
read_reply env no_answer = (
  error,
  "Agent communication timed out (" <> show_ℕ (env.deploy_timeout / nanos_per_second) <> "s)",
  "Policy stored locally but agent timed out" ∷ [],
  timeout,
)

module _ (st : Storage) (env : Env) (node : Node) (rules_yaml : String) where
  open st use {
    State, update_node_state, store_policy, get_policy, get_policy_history, record_deployment,
  }

  deployment_record : ℕ → DeploymentResult → String → DeploymentRecord
  deployment_record version result message = record {
    id = env.uuid;
    node_id = node.node_id;
    policy_version = version;
    policy_hash = env.hash rules_yaml;
    deployed_at = env.now;
    result = result;
    message = message;
  }

  -- The answer to a request that the active policy already meets.
  pub skip_deploy : State → DeployOutcome × State
  unfolding deployment_record
  skip_deploy s = elim (get_policy_history node.node_id 1 s) [
    | err e ↦ (failure ("Failed to read policy history: " <> env.error_text e), s)
    | ok versions ↦
        let version : ℕ = elim (head? versions) [ none ↦ 0 | some v ↦ v.version ] in
        (
          record {
            success = true;
            message = no_change;
            warnings = [];
            result = DeploymentResult.success;
            version = version;
          },
          (record_deployment (deployment_record version DeploymentResult.success no_change) s).1,
        )
  ]

  -- The part after the policy is stored.
  send_deploy : CompileOptions → ℕ → State → DeployOutcome × State
  unfolding deployment_record read_reply
  send_deploy options version s =
      let s₁ = (update_node_state node.node_id deploying s).1 in
      let reply = env.agent (agent_address env node) rules_yaml options in
      let (target, message, warnings, result) = read_reply env reply in
      let s₂ = (update_node_state node.node_id target s₁).1 in
      let s₃ = (record_deployment (deployment_record version result message) s₂).1 in
      (
        record {
          success = is_success result;
          message = message;
          warnings = warnings;
          result = result;
          version = version;
        },
        s₃,
      )

  pub start_deploy : CompileOptions → State → DeployOutcome × State
  unfolding send_deploy requested_policy
  start_deploy options s =
      let policy = requested_policy node.node_id rules_yaml (env.hash rules_yaml) env.now options in
      let (stored, s₁) = store_policy policy s in
      elim stored [
        | err e ↦ (failure ("Failed to store policy: " <> env.error_text e), s₁)
        | ok version ↦ send_deploy options version s₁
      ]

  -- The active policy of an active node is what the request asks for.
  unfoldable pub is_no_op : CompileOptions → Option Policy → Bool
  unfolding policy_matches_request
  is_no_op options none = false
  is_no_op options (some p) =
      same_state node.state active
      && policy_matches_request p rules_yaml (env.hash rules_yaml) options

  unfoldable pub deploy_to_node : CompileOptions → State → DeployOutcome × State
  unfolding skip_deploy start_deploy is_no_op
  deploy_to_node requested s =
      let options = normalize_options requested in
      elim (ensure_node_capabilities node options) [
        | err message ↦ (failure message, s)
        | ok _ ↦ elim (get_policy node.node_id s) [
          | err e ↦ (failure ("Failed to read current policy: " <> env.error_text e), s)
          | ok current ↦ if is_no_op options current then skip_deploy s else start_deploy options s
        ]
      ]
