-- ===== src/Service/Deploys.antt =====
-- The deployments of `ManagementService` in pacinet-server/src/service.rs: `deploy_policy` with
-- `do_deploy`, and `batch_deploy_policy` with `deploy_single_node`. The tasks of a batch run here one after
-- another, in any order; none of them panics.
pub mod Guards
pub mod Batch
use pacinet.Prelude.{
  ℕ, suc, ◌+◌, ◌-◌, ◌%◌, String, Bool, true, false, Option, none, some, List, [], ◌∷◌, Result, ok,
  err, length, keep, if◌then◌else◌,
}
use pacinet.HashMap.{HashMap}
use pacinet.Error.{PaciNetError}
use pacinet.Model.{Node}
use pacinet.Storage.State.{MemoryStorage}
use pacinet.Storage.Interface.{memory}
use pacinet.Storage.Nodes
use pacinet.Storage.Deploys
use pacinet.Deploy.Options.{CompileOptions, default_options}
use pacinet.Deploy.Node.{DeployOutcome, Env, deploy_to_node}
use pacinet.Deploy.Fleet.{u32_size}
use pacinet.Service.{Status, Reply, blocking}
use pacinet.Service.Nodes.{find_node}

pub record DeployPolicyRequest : Type 0 where
  pub node_id : String
  pub rules_yaml : String
  pub options : Option CompileOptions
  pub dry_run : Bool

-- `DeployPolicyResponse`, whose `dry_run_result` is always absent.
pub record DeployPolicyResponse : Type 0 where
  pub success : Bool
  pub message : String
  pub warnings : List String

unfoldable pub response_of : DeployOutcome → DeployPolicyResponse
response_of o = record { success = o.success; message = o.message; warnings = o.warnings }

abbrev pub options_or_default : Option CompileOptions → CompileOptions
options_or_default none = default_options
options_or_default (some o) = o

unfoldable pub do_deploy :
    Env → DeployPolicyRequest → Node → MemoryStorage → Reply DeployPolicyResponse × MemoryStorage
unfolding response_of
do_deploy env req node s =
    let (outcome, t) =
      deploy_to_node memory env node req.rules_yaml (options_or_default req.options) s in
    (ok (response_of outcome), t)

-- The guard, the deployment, and the release, which `deploy_policy`, `rollback_policy` and
-- `deploy_single_node` have in common.
unfoldable pub guarded_deploy :
    Env → DeployPolicyRequest → Node → MemoryStorage → Reply DeployPolicyResponse × MemoryStorage
unfolding blocking do_deploy
guarded_deploy env req node s =
    let (guard, t) = Deploys.begin_deploy req.node_id s in
    elim (blocking env.error_text guard) [
      | err e ↦ (err e, t)
      | ok _ ↦
          let (result, u) = do_deploy env req node t in (result, Deploys.end_deploy req.node_id u)
    ]

unfoldable pub deploy_policy :
    Env → DeployPolicyRequest → MemoryStorage → Reply DeployPolicyResponse × MemoryStorage
unfolding guarded_deploy find_node
deploy_policy env req s = elim (find_node env.error_text req.node_id s) [
  | err e ↦ (err e, s)
  | ok node ↦ guarded_deploy env req node s
]

pub record NodeDeployResult : Type 0 where
  pub node_id : String
  pub hostname : String
  pub success : Bool
  pub message : String
  pub warnings : List String

unfoldable pub result_of : Node → Reply DeployPolicyResponse → NodeDeployResult
result_of node (ok r) = record {
  node_id = node.node_id;
  hostname = node.hostname;
  success = r.success;
  message = r.message;
  warnings = r.warnings;
}
result_of node (err status) = record {
  node_id = node.node_id;
  hostname = node.hostname;
  success = false;
  message = status.message;
  warnings = [];
}

pub record BatchDeployPolicyResponse : Type 0 where
  pub total_nodes : ℕ
  pub succeeded : ℕ
  pub failed : ℕ
  pub results : List NodeDeployResult

abbrev pub empty_batch : BatchDeployPolicyResponse
empty_batch = record { total_nodes = 0; succeeded = 0; failed = 0; results = [] }

abbrev pub single_request : String → Option CompileOptions → Node → DeployPolicyRequest
single_request rules_yaml options node = record {
  node_id = node.node_id;
  rules_yaml = rules_yaml;
  options = options;
  dry_run = false;
}

module _ (rules_yaml : String) (options : Option CompileOptions) where
  -- The tasks in the order in which they run; `envs i` is what the `i`-th of them finds outside.
  unfoldable pub run_tasks :
      (ℕ → Env) → ℕ → List Node → MemoryStorage → List NodeDeployResult × MemoryStorage
  unfolding guarded_deploy result_of
  run_tasks envs i [] s = ([], s)
  run_tasks envs i (node ∷ nodes) s =
      let (reply, t) = guarded_deploy (envs i) (single_request rules_yaml options node) node s in
      let (rest, u) = run_tasks envs (suc i) nodes t in (result_of node reply ∷ rest, u)

  -- The part after the nodes are listed; `order` is the order in which the runtime takes the tasks.
  unfoldable pub batch_nodes :
      (ℕ → Env)
      → (List Node → List Node)
      → List Node
      → MemoryStorage
      → BatchDeployPolicyResponse × MemoryStorage
  unfolding run_tasks
  batch_nodes envs order [] s = (empty_batch, s)
  batch_nodes envs order (n ∷ ns) s =
      let (results, t) = run_tasks envs 0 (order (n ∷ ns)) s in
      let total = length (n ∷ ns) % u32_size in
      let succeeded = length (keep (λ r. r.success) results) % u32_size in
      (
        record {
          total_nodes = total;
          succeeded = succeeded;
          failed = (total + (u32_size - succeeded)) % u32_size;
          results = results;
        },
        t,
      )

  unfoldable pub batch_deploy_policy :
      (ℕ → Env)
      → (List Node → List Node)
      → HashMap String
      → MemoryStorage
      → Reply BatchDeployPolicyResponse × MemoryStorage
  unfolding blocking batch_nodes
  batch_deploy_policy envs order label_filter s =
      elim (blocking (envs 0).error_text (Nodes.list_nodes label_filter s)) [
        | err e ↦ (err e, s)
        | ok nodes ↦ let (b, t) = batch_nodes envs order nodes s in (ok b, t)
      ]
