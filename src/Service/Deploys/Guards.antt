-- ===== src/Service/Deploys/Guards.antt =====
-- The answers of `deploy_policy`, and that every deployment gives its guard up.
use pacinet.Prelude.{
  String, ◌≡◌, ◌⊎◌, ◌∙◌, inl, inr, refl, ap, true, false, none, some, ok, err, arith, eq_iff,
  Option-cases, Bool-cases, if◌then◌else◌,
}
use pacinet.HashMap.{get, set_contains, set_insert}
use pacinet.Error.{StatusCode, concurrent_deploy, status_code}
use pacinet.Model.{Node}
use pacinet.Storage.State.{MemoryStorage}
use pacinet.Storage.Interface.{memory}
use pacinet.Storage.Deploys.{begin_deploy, end_deploy}
use pacinet.Storage.Deploys.Guard.{begin_deploy_lem, end_deploy_lem}
use pacinet.Storage.Nodes
use pacinet.Deploy.Node.{Env, deploy_to_node}
use pacinet.Deploy.Node.Guard.{guards-deploy_to_node}
use pacinet.Service.{Status, blocking, status_of}
use pacinet.Service.Nodes.{find_node, node_not_found}
use pacinet.Service.Deploys.{
  DeployPolicyRequest, options_or_default, response_of, do_deploy, guarded_deploy, deploy_policy,
}

abbrev pub busy : Env → String → Status
busy env k = record { code = StatusCode.aborted; message = env.error_text (concurrent_deploy k) }

abbrev pub missing : String → Status
missing k = record { code = StatusCode.not_found; message = node_not_found k }

begin_deploy-busy :
    (k : String) (s : MemoryStorage)
    → set_contains k s.deploying ≡ true
    → begin_deploy k s ≡ (err (concurrent_deploy k), s)
unfolding begin_deploy set_insert
begin_deploy-busy k s h = rw (h, begin_deploy, set_insert) refl

pub guarded_deploy-busy :
    (env : Env) (req : DeployPolicyRequest) (node : Node) (s : MemoryStorage)
    → set_contains req.node_id s.deploying ≡ true
    → guarded_deploy env req node s ≡ (err (busy env req.node_id), s)
unfolding guarded_deploy blocking status_of status_code
guarded_deploy-busy env req node s h =
    let taken = begin_deploy-busy req.node_id s h in
    rw (taken, guarded_deploy) (ap (λ b. (err (busy env req.node_id), b.1)) taken)

-- The state under the guard.
abbrev pub guarded : String → MemoryStorage → MemoryStorage
guarded k s = (begin_deploy k s).1

pub guarded_deploy-free :
    (env : Env) (req : DeployPolicyRequest) (node : Node) (s : MemoryStorage)
    → set_contains req.node_id s.deploying ≡ false
    → let d =
        deploy_to_node memory env node req.rules_yaml
          (options_or_default req.options)
          (guarded req.node_id s) in
      guarded_deploy env req node s ≡ (ok (response_of d.0), end_deploy req.node_id d.1)
unfolding guarded_deploy do_deploy blocking
guarded_deploy-free env req node s h =
    let (g, _) = begin_deploy_lem req.node_id req.node_id s in
    let granted = g ∙ ap (λ b. if b then err (concurrent_deploy req.node_id) else ok tt) h in
    rw (granted, guarded_deploy) refl

-- What is done under a guard that was free leaves every guard as it was, when it leaves them alone.
pub guards_restored :
    (k j : String) (s t : MemoryStorage)
    → set_contains k s.deploying ≡ false
    → t.deploying ≡ (guarded k s).deploying
    → set_contains j (end_deploy k t).deploying ≡ set_contains j s.deploying
guards_restored k j s t free same =
    let (_, taken) = begin_deploy_lem k j s in
    let (_, given) = end_deploy_lem k j t in
    let kept = ap (set_contains j) same in ground (arith, given, kept, taken, free, eq_iff k j)

pub guards-guarded_deploy :
    (env : Env) (req : DeployPolicyRequest) (node : Node) (j : String) (s : MemoryStorage)
    → set_contains j (guarded_deploy env req node s).1.deploying ≡ set_contains j s.deploying
guards-guarded_deploy env req node j s = elim (Bool-cases (set_contains req.node_id s.deploying)) [
  | inl e ↦ rw (guarded_deploy-busy env req node s e) refl
  | inr e ↦ rw (guarded_deploy-free env req node s e) (
      guards_restored req.node_id j s _ e (
        guards-deploy_to_node env node req.rules_yaml (options_or_default req.options)
          (guarded req.node_id s)))
]

-- `deploy_policy` answers NOT_FOUND for an unknown node and ABORTED for one that is being deployed to, and
-- then changes nothing; otherwise it answers with the outcome of the deployment to the stored node, with
-- the options of the request or the defaults, run under the guard, also when the request asks for a dry run,
-- `dry_run`, which REQUIREMENTS.md says changes nothing. Whatever it answers, every
-- guard is afterwards as it was before.
pub deploy_policy_lem :
    (env : Env) (req : DeployPolicyRequest) (j : String) (s : MemoryStorage)
    → let r = deploy_policy env req s in
      (((get req.node_id s.nodes ≡ none) × (r ≡ (err (missing req.node_id), s)))
        ⊎ ((set_contains req.node_id s.deploying ≡ true) × (r ≡ (err (busy env req.node_id), s)))
        ⊎ ((node : Node) × (get req.node_id s.nodes ≡ some node)
            × (r ≡ (
              ok (
                  response_of
                    (deploy_to_node memory env node req.rules_yaml
                      (options_or_default req.options)
                      (guarded req.node_id s)).0),
              end_deploy req.node_id
                  (deploy_to_node memory env node req.rules_yaml
                    (options_or_default req.options)
                    (guarded req.node_id s)).1,
            ))))
      × (set_contains j r.1.deploying ≡ set_contains j s.deploying)
unfolding deploy_policy find_node Nodes.get_node blocking
deploy_policy_lem env req j s = elim (Option-cases (get req.node_id s.nodes)) [
  | inl e ↦ rw (e, deploy_policy) (inl (refl, refl), refl)
  | inr (node, e) ↦
      let kept = guards-guarded_deploy env req node j s in
      elim (Bool-cases (set_contains req.node_id s.deploying)) [
        | inl h ↦ rw (e, deploy_policy) (inr (inl (h, guarded_deploy-busy env req node s h)), kept)
        | inr h ↦
            rw (e, deploy_policy)
              (inr (inr (node, refl, guarded_deploy-free env req node s h)), kept)
      ]
]
