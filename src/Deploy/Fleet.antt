-- ===== src/Deploy/Fleet.antt =====
-- `deploy_to_nodes` of pacinet-server/src/deploy.rs: one node after another, each under its deploy guard.
pub mod Counts
pub mod Guards
use pacinet.Prelude.{
  ℕ, suc, ◌+◌, ◌%◌, String, Bool, true, false, List, [], ◌∷◌, ◌++◌, ok, err, length, if◌then◌else◌,
}
use pacinet.Model.{Node}
use pacinet.Fsm.Instance.{ActionResult, NodeActionResult}
use pacinet.Storage.Interface.{Storage}
use pacinet.Deploy.Options.{CompileOptions}
use pacinet.Deploy.Node.{Env, deploy_to_node}

-- A `u32` holds the numbers below this one.
abbrev pub u32_size : ℕ
u32_size = 4294967296

-- The variables of the loop.
pub record Tally : Type 0 where
  pub succeeded : ℕ
  pub failed : ℕ
  pub node_results : List NodeActionResult

abbrev pub push_result : Node → Bool → String → Tally → Tally
push_result node success message t = record {
  succeeded = if success then (t.succeeded + 1) % u32_size else t.succeeded;
  failed = if success then t.failed else (t.failed + 1) % u32_size;
  node_results =
      t.node_results
      ++ (record { node_id = node.node_id; success = success; message = message }) ∷ [];
}

-- `envs i` is what the deployment of the `i`-th node finds outside.
module _ (st : Storage) (envs : ℕ → Env) (rules_yaml : String) (options : CompileOptions) where
  open st use {State, begin_deploy, end_deploy}

  -- The body of the loop.
  unfoldable pub deploy_one : ℕ → Node → Tally → State → Tally × State
  deploy_one i node t s =
      let (guard, s₁) = begin_deploy node.node_id s in
      elim guard [
        | err _ ↦ (push_result node false "Concurrent deploy in progress" t, s₁)
        | ok _ ↦
            let (outcome, s₂) = deploy_to_node st (envs i) node rules_yaml options s₁ in
            (push_result node outcome.success outcome.message t, end_deploy node.node_id s₂)
      ]

  unfoldable pub deploy_from : ℕ → List Node → Tally → State → Tally × State
  unfolding deploy_one
  deploy_from i [] t s = (t, s)
  deploy_from i (node ∷ nodes) t s =
      let (t₁, s₁) = deploy_one i node t s in deploy_from (suc i) nodes t₁ s₁

  unfoldable pub deploy_to_nodes : List Node → State → ActionResult × State
  unfolding deploy_from
  deploy_to_nodes nodes s =
      let (t, s₁) =
        deploy_from 0 nodes (record { succeeded = 0; failed = 0; node_results = [] }) s in
      (
        record {
          succeeded = t.succeeded;
          failed = t.failed;
          total = length nodes % u32_size;
          node_results = t.node_results;
        },
        s₁,
      )
