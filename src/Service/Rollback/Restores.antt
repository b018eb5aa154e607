-- ===== src/Service/Rollback/Restores.antt =====
-- A rollback makes the rules of the version that it rolls back to the current policy again.
use pacinet.Prelude.{
  ℕ, suc, ◌+◌, ◌<◌, String, ◌≡◌, ◌≢◌, ◌∙◌, refl, sym, ap, true, false, some, IsIn, IsIn-reverse,
  take, length, length-reverse, [], ◌∷◌, ok, err, if◌then◌else◌, List, arith,
}
use mathlib.Core.Path.{subst}
use pacinet.HashMap.Laws.{Entries-get}
use pacinet.HashMap.{get, set_contains}
use pacinet.Error.{concurrent_deploy}
use pacinet.Model.{Node, PolicyVersion}
use pacinet.Storage.State.{MemoryStorage}
use pacinet.Storage.Interface.{memory}
use pacinet.Storage.Deploys.{end_deploy}
use pacinet.Storage.Deploys.Guard.{begin_deploy_lem}
use text.Mathlib.Text.{starts_with}
use mathlib.Core.List.{reverse}
use pacinet.Storage.Policies.{get_policy_history, or_empty}
use pacinet.Storage.Nodes
use pacinet.Storage.Run.{Call, step}
use pacinet.Storage.Run.Steps.{IsNumbered-or_empty}
use pacinet.Storage.Run.Invariant.{IsValid}
use pacinet.Storage.Run.Preserves.{step-IsValid}
use pacinet.Deploy.Options.{normalize_options, ensure_node_capabilities}
use pacinet.Deploy.Node.{Env, DeployOutcome, deploy_to_node}
use pacinet.Deploy.Node.Guard.{guards-deploy_to_node}
use pacinet.Deploy.Node.Stored.{IsStored, deploy_to_node-IsStored}
use pacinet.Engine.Actions.{version_options}
use pacinet.Service.{blocking}
use pacinet.Service.Nodes.{find_node}
use pacinet.Service.Deploys.{do_deploy, response_of}
use pacinet.Service.Deploys.Guards.{guarded, guards_restored}
use pacinet.Service.Rollback.{
  RollbackPolicyResponse, find_target, rollback_request, rollback_response, roll_back,
  rollback_policy, refused,
}
use pacinet.Service.Rollback.Target.{IsCountdown, IsCountdown-reverse, find_target-version}

roll_back-free :
    (env : Env) (node : Node) (k : String) (vs : List PolicyVersion) (v : PolicyVersion)
    (s : MemoryStorage)
    → set_contains k s.deploying ≡ false
    → let d = deploy_to_node memory env node v.rules_yaml (version_options v) (guarded k s) in
      roll_back env node k vs v s
      ≡ (ok (rollback_response vs v.version (ok (response_of d.0))), end_deploy k d.1)
unfolding roll_back do_deploy blocking rollback_request
roll_back-free env node k vs v s h =
    let (g, _) = begin_deploy_lem k k s in
    let granted = g ∙ ap (λ b. if b then err (concurrent_deploy k) else ok tt) h in
    rw (granted, roll_back) refl

-- The node and the version that the call finds lead to the rollback itself.
rollback_policy-found :
    (env : Env) (node : Node) (k : String) (target : ℕ) (v : PolicyVersion)
    (vs : List PolicyVersion) (s : MemoryStorage)
    → get k s.nodes ≡ some node
    → get_policy_history k 10 s ≡ ok vs
    → find_target target vs ≡ ok (ok v)
    → rollback_policy env k target s ≡ roll_back env node k vs v s
unfolding rollback_policy find_node Nodes.get_node blocking find_target
rollback_policy-found env node k target v [] s e q f = absurd (ground arith)
rollback_policy-found env node k target v (x ∷ vs) s e q f = rw (e, q, f, rollback_policy) refl

-- What the call answers to the outcome of the deployment: success is that of the deployment; a version is named
-- only with success, the target's, or the newest one if nothing had to be deployed.
abbrev pub IsAnswer : RollbackPolicyResponse → DeployOutcome → PolicyVersion → ℕ → Type 0
IsAnswer response outcome v newest =
    (response.success ≡ outcome.success)
    × (outcome.success ≡ true
        → starts_with outcome.message "No change:" ≡ false
        → response.rolled_back_to_version ≡ v.version)
    × (outcome.success ≡ true
        → starts_with outcome.message "No change:" ≡ true
        → response.rolled_back_to_version ≡ newest)
    × (outcome.success ≡ false
        → (response.message ≡ outcome.message) × (response.rolled_back_to_version ≡ 0))

rollback_response-IsAnswer :
    (vs : List PolicyVersion) (v : PolicyVersion) (outcome : DeployOutcome)
    → IsCountdown 1 vs
    → IsIn v vs
    → IsAnswer
        (rollback_response (take 10 vs) v.version (ok (response_of outcome)))
        outcome
        v
        (length vs)
unfolding rollback_response response_of refused IsCountdown
rollback_response-IsAnswer [] v outcome h i = elim i [ ]
rollback_response-IsAnswer (w ∷ ws) v outcome h i =
    let newest : w.version ≡ suc (length ws) = omega (arith, h.0) in ground (arith, newest)

-- On a valid store, for a node that is there, is not being deployed to and advertises what the version needs:
-- a rollback without a target goes back to the version before the newest one, and one with a target to
-- the version of that number, if it is among the last ten. It is answered, makes the rules and the options of
-- that version the current policy and the newest entry of the history, and leaves every deploy guard as it
-- was. The answer is the success or the failure of the deployment, and with success names the version, or the
-- newest one if nothing had to be deployed.
pub rollback_policy-IsStored :
    (env : Env) (k : String) (target : ℕ) (node : Node) (v : PolicyVersion) (j : String)
    (s : MemoryStorage)
    → IsValid s
    → get k s.nodes ≡ some node
    → set_contains k s.deploying ≡ false
    → let versions = or_empty (get k s.policy_versions) in
      IsIn v versions
      → (target ≡ 0 → suc v.version ≡ length versions)
      → (target ≢ 0 → v.version ≡ target)
      → length versions < v.version + 10
      → ensure_node_capabilities node (normalize_options (version_options v)) ≡ ok tt
      → let d = deploy_to_node memory env node v.rules_yaml (version_options v) (guarded k s) in
        let r = rollback_policy env k target s in
        ((response : RollbackPolicyResponse) × (r.0 ≡ ok response)
          × IsAnswer response d.0 v (length versions))
        × IsStored env k v.rules_yaml (normalize_options (version_options v)) d.0.version r.1
        × (set_contains j r.1.deploying ≡ set_contains j s.deploying)
unfolding rollback_policy find_node Nodes.get_node blocking get_policy_history end_deploy step
rollback_policy-IsStored env k target node v j s h e free among previous named few capable =
    let own = Entries-get (λ i n. n.node_id ≡ i) k s.nodes h.nodes.keyed e in
    let versions : List PolicyVersion = or_empty (get k s.policy_versions) in
    let numbered = IsNumbered-or_empty k s.policy_versions h.policies.numbered in
    let down = IsCountdown-reverse k 1 versions numbered in
    let count = length-reverse versions in
    let here = IsIn-reverse v versions among in
    let found =
      find_target-version target v (reverse versions) down here (λ z. previous z ∙ sym count) named
        (omega (arith, few, count)) in
    let vs = take 10 (reverse versions) in
    let valid = step-IsValid (Call.begin_deploy k) s h in
    let outcome = deploy_to_node memory env node v.rules_yaml (version_options v) (guarded k s) in
    let answer = rollback_response-IsAnswer (reverse versions) v outcome.0 down here in
    let stored =
      deploy_to_node-IsStored env node v.rules_yaml (version_options v) (guarded k s) valid
        capable in
    rw
      (
        rollback_policy-found env node k target v vs s e refl found,
        roll_back-free env node k vs v s free,
      )
      (
        (
          rollback_response vs v.version (ok (response_of outcome.0)),
          refl,
          subst (IsAnswer (rollback_response vs v.version (ok (response_of outcome.0))) outcome.0 v)
              count answer,
        ),
        subst
            (λ i.
              IsStored env i v.rules_yaml (normalize_options (version_options v)) outcome.0.version
                outcome.1)
            own stored,
        guards_restored k j s outcome.1 free
            (guards-deploy_to_node env node v.rules_yaml (version_options v) (guarded k s)),
      )
