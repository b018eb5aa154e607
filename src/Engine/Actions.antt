-- ===== src/Engine/Actions.antt =====
-- The actions of a state: `execute_action`, `execute_deploy` and `execute_rollback`. An alert starts a
-- webhook in a task of its own and changes nothing here.
pub mod Batch
use pacinet.Prelude.{
  ℕ, suc, ◌+◌, ◌-◌, ◌%◌, String, ◌==◌, Bool, true, false, Option, none, some, List, [], ◌∷◌, ◌++◌,
  map, ok, err, ltb, leb, length, take, drop, any, get_elem?, if◌then◌else◌,
}
use pacinet.Text.{◌<>◌}
use pacinet.Model.{Node, PolicyVersion}
use pacinet.Fsm.Definition
use pacinet.Fsm.Definition.{DeployAction, ActionDefinition}
use pacinet.Fsm.Instance.{FsmInstance, FsmContext, ActionResult, NodeActionResult}
use pacinet.Storage.Interface.{Storage}
use pacinet.Counters.Rate.{Floats}
use pacinet.Deploy.Options.{CompileOptions, default_options}
use pacinet.Deploy.Node.{Env, deploy_to_node}
use pacinet.Deploy.Fleet.{u32_size, Tally, deploy_to_nodes}

abbrev pub with_context : FsmInstance → FsmContext → FsmInstance
with_context i c = record i { context = c }

-- `if !xs.contains(&x) { xs.push(x) }`
unfoldable pub push_new : String → List String → List String
push_new x xs = if any (λ y. y == x) xs then xs else xs ++ x ∷ []

unfoldable pub push_all_new : List String → List String → List String
unfolding push_new
push_all_new [] xs = xs
push_all_new (n ∷ ns) xs = push_all_new ns (push_new n xs)

-- `((total as f64 * pct as f64 / 100.0).ceil() as usize).max(1).min(total)`
unfoldable pub batch_size : Floats → ℕ → ℕ → ℕ
batch_size fl total percent =
    let raw = fl.ceiling (
      fl.divide (fl.multiply (fl.of_integer false total) (fl.of_integer false percent))
        (fl.of_integer false 100)) in
    let at_least = if ltb raw 1 then 1 else raw in if ltb total at_least then total else at_least

-- The nodes of this turn with the new cursor, or nothing when all batches are done.
unfoldable pub next_batch : Floats → Option ℕ → ℕ → List Node → Option (List Node × ℕ)
unfolding batch_size
next_batch fl none cursor nodes = some (nodes, cursor)
next_batch fl (some percent) cursor nodes =
    let total = length nodes in
    if leb total cursor
    then none
    else let end = cursor + batch_size fl total percent in
      let stop = if ltb total end then total else end in
      some (take (stop - cursor) (drop cursor nodes), stop % u32_size)

abbrev pub to_request : Definition.CompileOptions → CompileOptions
to_request o = record {
  counters = o.counters;
  rate_limit = o.rate_limit;
  conntrack = o.conntrack;
  axi = o.axi;
  ports = o.ports;
  target = o.target;
  dynamic = o.dynamic;
  dynamic_entries = o.dynamic_entries;
  width = o.width;
  ptp = o.ptp;
  rss = o.rss;
  rss_queues = o.rss_queues;
  int_enabled = o.int;
  int_switch_id = o.int_switch_id;
}

-- The loop that adds the results to the context.
unfoldable pub add_results : List NodeActionResult → FsmContext → FsmContext
unfolding push_new
add_results [] c = c
add_results (r ∷ rs) c = add_results rs (
    if r.success
    then record c { deployed_nodes = push_new r.node_id c.deployed_nodes }
    else record c { failed_nodes = push_new r.node_id c.failed_nodes })

abbrev pub version_options : PolicyVersion → CompileOptions
version_options v = record {
  counters = v.counters_enabled;
  rate_limit = v.rate_limit_enabled;
  conntrack = v.conntrack_enabled;
  axi = v.axi_enabled;
  ports = v.ports;
  target = v.target;
  dynamic = v.dynamic;
  dynamic_entries = v.dynamic_entries;
  width = v.width;
  ptp = v.ptp;
  rss = v.rss;
  rss_queues = v.rss_queues;
  int_enabled = v.int;
  int_switch_id = v.int_switch_id;
}

abbrev pub no_nodes : ActionResult
no_nodes = record { succeeded = 0; failed = 0; total = 0; node_results = [] }

abbrev is_empty : {A : Type 0} → List A → Bool
is_empty [] = true
is_empty (x ∷ xs) = false

-- `push_result` at a node of which only the name is known.
abbrev pub push_named : String → Bool → String → Tally → Tally
push_named node_id success message t = record {
  succeeded = if success then (t.succeeded + 1) % u32_size else t.succeeded;
  failed = if success then t.failed else (t.failed + 1) % u32_size;
  node_results =
      t.node_results ++ (record { node_id = node_id; success = success; message = message }) ∷ [];
}

-- `envs` is what the deployments of an action find outside, one after another.
module _ (st : Storage) (fl : Floats) (envs : ℕ → Env) where
  open st use {State, list_nodes, get_policy_history, get_node}

  -- The part of `execute_deploy` that deploys to the nodes of this turn.
  unfoldable pub deploy_batch : String → List Node → ℕ → FsmInstance → State → FsmInstance × State
  unfolding push_all_new add_results
  deploy_batch rules_yaml nodes cursor i s =
      let c = record i.context {
        batch_cursor = cursor;
        target_nodes = push_all_new (map (λ n. n.node_id) nodes) i.context.target_nodes;
      } in
      let options : CompileOptions = elim c.compile_options [
        | none ↦ default_options
        | some o ↦ to_request o
      ] in
      let (result, t) = deploy_to_nodes st envs rules_yaml options nodes s in
      (
        with_context i
            (record (add_results result.node_results c) { last_action_result = some result }),
        t,
      )

  unfoldable pub execute_deploy : DeployAction → FsmInstance → State → FsmInstance × State
  unfolding deploy_batch next_batch
  execute_deploy action i s = elim i.context.rules_yaml [
    | none ↦ (i, s)
    | some rules_yaml ↦ elim (list_nodes action.select.label s) [
      | err _ ↦ (i, s)
      | ok nodes ↦
          if is_empty nodes
          then (with_context i (record i.context { last_action_result = some no_nodes }), s)
          else let selected : List Node = elim action.select.limit [
            | none ↦ nodes
            | some limit ↦ take limit nodes
          ] in
            elim (next_batch fl action.batch_percent i.context.batch_cursor selected) [
              | none ↦ (
                with_context i (record i.context {
                  last_action_result = some (record {
                    succeeded = length i.context.deployed_nodes % u32_size;
                    failed = length i.context.failed_nodes % u32_size;
                    total = length selected % u32_size;
                    node_results = [];
                  });
                }),
                s,
              )
              | some (batch, cursor) ↦ deploy_batch rules_yaml batch cursor i s
            ]
    ]
  ]

  -- The body of the loop of `execute_rollback`, which deploys without taking the deploy guard.
  unfoldable pub rollback_one : Env → String → Tally → State → Tally × State
  rollback_one env node_id t s = elim (get_policy_history node_id 2 s) [
    | err e ↦ (push_named node_id false ("Failed to get policy history: " <> env.error_text e) t, s)
    | ok versions ↦ elim (get_elem? versions 1) [
      | none ↦ (push_named node_id false "No previous policy version" t, s)
      | some prev ↦ elim (get_node node_id s) [
        | err _ ↦ (push_named node_id false "Node not found" t, s)
        | ok none ↦ (push_named node_id false "Node not found" t, s)
        | ok (some node) ↦
            let (outcome, s₁) =
              deploy_to_node st env node prev.rules_yaml (version_options prev) s in
            (push_named node_id outcome.success outcome.message t, s₁)
      ]
    ]
  ]

  unfoldable pub rollback_from : ℕ → List String → Tally → State → Tally × State
  unfolding rollback_one
  rollback_from k [] t s = (t, s)
  rollback_from k (n ∷ ns) t s =
      let (t₁, s₁) = rollback_one (envs k) n t s in rollback_from (suc k) ns t₁ s₁

  unfoldable pub execute_rollback : FsmInstance → State → FsmInstance × State
  unfolding rollback_from
  execute_rollback i s =
      let deployed_nodes = i.context.deployed_nodes in
      if is_empty deployed_nodes
      then (i, s)
      else let (t, s₁) =
          rollback_from 0 deployed_nodes (record { succeeded = 0; failed = 0; node_results = [] })
            s in
        (
          with_context i (record i.context {
            last_action_result = some (record {
              succeeded = t.succeeded;
              failed = t.failed;
              total = length deployed_nodes % u32_size;
              node_results = t.node_results;
            });
          }),
          s₁,
        )

  unfoldable pub execute_action : ActionDefinition → FsmInstance → State → FsmInstance × State
  unfolding execute_deploy execute_rollback
  execute_action a i s = elim a.deploy [
    | some d ↦ execute_deploy d i s
    | none ↦ elim a.rollback [ some _ ↦ execute_rollback i s | none ↦ (i, s) ]
  ]
