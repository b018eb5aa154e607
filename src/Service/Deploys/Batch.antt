-- ===== src/Service/Deploys/Batch.antt =====
-- The counts, the nodes and the guards of a batch deployment.
use mathlib.Core.List.Perm
use mathlib.Core.List.{Perm, Permᴰ}
use mathlib.Core.Path.{subst}
use mathlib.Core.Logic.{∥∥₁_elim}
use native.Mathlib.Nat.{ℕ_set}
use pacinet.Prelude.{
  ℕ, suc, ◌+◌, ◌<◌, String, ◌≡◌, ◌∙◌, ap, sym, refl, Option, List, [], ◌∷◌, map, ok, err, length,
  keep, arith, length-keep-le,
}
use pacinet.HashMap.{HashMap, set_contains}
use pacinet.Model.{Node}
use pacinet.Storage.State.{MemoryStorage, listed}
use pacinet.Storage.Nodes
use pacinet.Deploy.Options.{CompileOptions}
use pacinet.Deploy.Node.{Env}
use pacinet.Deploy.Fleet.{u32_size}
use pacinet.Service.{Reply, blocking}
use pacinet.Service.Deploys.{
  BatchDeployPolicyResponse, DeployPolicyResponse, guarded_deploy, result_of, run_tasks,
  batch_nodes, batch_deploy_policy, single_request,
}
use pacinet.Service.Deploys.Guards.{guards-guarded_deploy}

node_id-result_of :
    (node : Node) (r : Reply DeployPolicyResponse) → (result_of node r).node_id ≡ node.node_id
unfolding result_of
node_id-result_of node (ok r) = refl
node_id-result_of node (err e) = refl

module _ (y : String) (o : Option CompileOptions) (envs : ℕ → Env) where
  -- One result for each node, in the order of the tasks.
  ids-run_tasks :
      (i : ℕ) (nodes : List Node) (s : MemoryStorage)
      → map (λ r. r.node_id) (run_tasks y o envs i nodes s).0 ≡ map (λ n. n.node_id) nodes
  unfolding run_tasks
  ids-run_tasks i [] s = refl
  ids-run_tasks i (n ∷ ns) s =
      let (reply, t) = guarded_deploy (envs i) (single_request y o n) n s in
      rw (node_id-result_of n reply, ids-run_tasks (suc i) ns t) refl

  guards-run_tasks :
      (i : ℕ) (nodes : List Node) (j : String) (s : MemoryStorage)
      → set_contains j (run_tasks y o envs i nodes s).1.deploying ≡ set_contains j s.deploying
  unfolding run_tasks
  guards-run_tasks i [] j s = refl
  guards-run_tasks i (n ∷ ns) j s =
      let (reply, t) = guarded_deploy (envs i) (single_request y o n) n s in
      guards-run_tasks (suc i) ns j t ∙ guards-guarded_deploy (envs i) (single_request y o n) n j s

length-map : {A B : Type 0} (f : A → B) (xs : List A) → length (map f xs) ≡ length xs
length-map f [] = refl
length-map f (x ∷ xs) = omega (arith, length-map f xs)

length-permᴰ : {A : Type 0} {xs ys : List A} → Permᴰ xs ys → length xs ≡ length ys
length-permᴰ Permᴰ.nil = refl
length-permᴰ (Permᴰ.cons e p) = ap suc (length-permᴰ p)
length-permᴰ (Permᴰ.swap e f) = refl
length-permᴰ (Permᴰ.trans p q) = length-permᴰ p ∙ length-permᴰ q

length-perm : {A : Type 0} {xs ys : List A} → Perm xs ys → length xs ≡ length ys
length-perm {xs = xs} {ys = ys} p = ∥∥₁_elim p (ℕ_set (length xs) (length ys)) length-permᴰ

module _ (y : String) (o : Option CompileOptions) (envs : ℕ → Env) (order : List Node → List Node)
    (j : String) (s : MemoryStorage) where
  batch_nodes-counts :
      (nodes : List Node)
      → Perm (order nodes) nodes
      → length nodes < u32_size
      → let r = batch_nodes y o envs order nodes s in
        Perm (map (λ x. x.node_id) r.0.results) (map (λ n. n.node_id) nodes)
        × (r.0.total_nodes ≡ length nodes)
        × (r.0.succeeded ≡ length (keep (λ x. x.success) r.0.results))
        × (r.0.succeeded + r.0.failed ≡ r.0.total_nodes)
        × (set_contains j r.1.deploying ≡ set_contains j s.deploying)
  unfolding batch_nodes
  batch_nodes-counts [] p few = (Perm.refl [], refl, refl, refl, refl)
  batch_nodes-counts (n ∷ ns) p few =
      let results = (run_tasks y o envs 0 (order (n ∷ ns)) s).0 in
      let ids = ids-run_tasks y o envs 0 (order (n ∷ ns)) s in
      let many : length results ≡ length (n ∷ ns) =
        sym (length-map (λ x. x.node_id) results)
        ∙ ap length ids
        ∙ length-map (λ x. x.node_id) (order (n ∷ ns))
        ∙ length-perm p in
      let some_of = length-keep-le (λ x. x.success) results in
      (
        subst (λ l. Perm l (map (λ x. x.node_id) (n ∷ ns))) (sym ids) (Perm.map _ p),
        omega (arith, few),
        omega (arith, few, many, some_of),
        omega (arith, few, many, some_of),
        guards-run_tasks y o envs 0 (order (n ∷ ns)) j s,
      )

-- For fewer than 2^32 nodes that have the labels, whatever the order in which the tasks of a batch
-- deployment run, it is answered with one result for each of them; the answer's total is their number,
-- its first count that of the results that succeeded, and its two counts add up to the total. Every
-- deploy guard is afterwards as it was before.
pub batch_deploy_policy-counts :
    (y : String) (o : Option CompileOptions) (envs : ℕ → Env) (order : List Node → List Node)
    (label_filter : HashMap String) (j : String) (s : MemoryStorage)
    → let nodes = listed (Nodes.list_nodes label_filter s) in
      let r = batch_deploy_policy y o envs order label_filter s in
      Perm (order nodes) nodes
      → length nodes < u32_size
      → (b : BatchDeployPolicyResponse) × (r.0 ≡ ok b)
        × Perm (map (λ x. x.node_id) b.results) (map (λ n. n.node_id) nodes)
        × (b.total_nodes ≡ length nodes)
        × (b.succeeded ≡ length (keep (λ x. x.success) b.results))
        × (b.succeeded + b.failed ≡ b.total_nodes)
        × (set_contains j r.1.deploying ≡ set_contains j s.deploying)
unfolding batch_deploy_policy Nodes.list_nodes blocking
batch_deploy_policy-counts y o envs order label_filter j s p few =
    let nodes = listed (Nodes.list_nodes label_filter s) in
    let (ids, total, succeeded, both, guards) = batch_nodes-counts y o envs order j s nodes p few in
    ((batch_nodes y o envs order nodes s).0, refl, ids, total, succeeded, both, guards)
