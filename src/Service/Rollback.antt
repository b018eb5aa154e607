-- ===== src/Service/Rollback.antt =====
-- `rollback_policy` of pacinet-server/src/service.rs.
pub mod Target
pub mod Restores
use pacinet.Prelude.{
  ℕ, String, Bool, true, false, Option, none, some, List, [], ◌∷◌, Result, ok, err, eqb, head?,
  find, get_elem?, if◌then◌else◌,
}
use text.Mathlib.Text.{starts_with}
use pacinet.Text.{◌<>◌, show_ℕ}
use pacinet.Error.{StatusCode}
use pacinet.Model.{Node, PolicyVersion}
use pacinet.Storage.State.{MemoryStorage}
use pacinet.Storage.Policies
use pacinet.Deploy.Node.{Env}
use pacinet.Engine.Actions.{version_options}
use pacinet.Service.{Status, Reply, blocking, or_not_found}
use pacinet.Service.Nodes.{find_node}
use pacinet.Service.Deploys.{DeployPolicyRequest, DeployPolicyResponse, do_deploy}
use pacinet.Storage.Deploys

pub record RollbackPolicyResponse : Type 0 where
  pub success : Bool
  pub message : String
  pub rolled_back_to_version : ℕ

unfoldable pub refused : String → RollbackPolicyResponse
refused message = record { success = false; message = message; rolled_back_to_version = 0 }

-- The version that the request asks for, with the answer of a request that names none.
unfoldable pub find_target :
    ℕ → List PolicyVersion → Reply (Result PolicyVersion RollbackPolicyResponse)
unfolding refused
find_target target_version versions =
    if eqb target_version 0
    then elim (get_elem? versions 1) [
      | none ↦ ok (err (refused "No previous version to rollback to"))
      | some v ↦ ok (ok v)
    ]
    else elim (find (λ v. eqb v.version target_version) versions) [
      | none ↦ err (record {
        code = StatusCode.not_found;
        message = "Policy version " <> show_ℕ target_version <> " not found";
      })
      | some v ↦ ok (ok v)
    ]

unfoldable pub rollback_request : String → PolicyVersion → DeployPolicyRequest
rollback_request node_id v = record {
  node_id = node_id;
  rules_yaml = v.rules_yaml;
  options = some (version_options v);
  dry_run = false;
}

-- The answer to what the deployment answered.
unfoldable pub rollback_response :
    List PolicyVersion → ℕ → Reply DeployPolicyResponse → RollbackPolicyResponse
unfolding refused
rollback_response versions target_version (err status) = refused status.message
rollback_response versions target_version (ok r) =
    let no_change = starts_with r.message "No change:" in
    if r.success
    then record {
      success = true;
      message = if no_change then r.message else "Rolled back to version " <> show_ℕ target_version;
      rolled_back_to_version =
          if no_change
          then elim (head? versions) [ none ↦ target_version | some v ↦ v.version ]
          else target_version;
    }
    else refused r.message

-- The part after the version is found: under the deploy guard.
unfoldable pub roll_back :
    Env
    → Node
    → String
    → List PolicyVersion
    → PolicyVersion
    → MemoryStorage
    → Reply RollbackPolicyResponse × MemoryStorage
unfolding blocking do_deploy rollback_request rollback_response
roll_back env node node_id versions v s =
    let (guard, t) = Deploys.begin_deploy node_id s in
    elim (blocking env.error_text guard) [
      | err e ↦ (err e, t)
      | ok _ ↦
          let (result, u) = do_deploy env (rollback_request node_id v) node t in
          (ok (rollback_response versions v.version result), Deploys.end_deploy node_id u)
    ]

unfoldable pub rollback_policy :
    Env → String → ℕ → MemoryStorage → Reply RollbackPolicyResponse × MemoryStorage
unfolding find_node blocking find_target roll_back
rollback_policy env node_id target_version s = elim (find_node env.error_text node_id s) [
  | err e ↦ (err e, s)
  | ok node ↦ elim (blocking env.error_text (Policies.get_policy_history node_id 10 s)) [
    | err e ↦ (err e, s)
    | ok [] ↦ (ok (refused "No policy history available"), s)
    | ok (latest ∷ rest) ↦ elim (find_target target_version (latest ∷ rest)) [
      | err e ↦ (err e, s)
      | ok (err response) ↦ (ok response, s)
      | ok (ok v) ↦ roll_back env node node_id (latest ∷ rest) v s
    ]
  ]
]
