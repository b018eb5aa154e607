-- ===== src/Deploy/Node/Stored.antt =====
-- The policy and the version that a deployment leaves, and the state of the node.
use mathlib.Core.List.{reverse, reverse-append}
use mathlib.Core.Path.{subst}
use pacinet.Prelude.{
  ℕ, ◌+◌, String, ◌≡◌, ◌∙◌, sym, ap, refl, eq_refl, true, Option, none, some, List, [], ◌∷◌, arith,
  ok, Bool-cases, inl, inr, if◌then◌else◌, length, take, head?, split_last, last?,
}
use pacinet.HashMap.{get}
use pacinet.HashMap.Laws.{get-insert}
use pacinet.Model.{Node, Policy, PolicyVersion}
use pacinet.Model.State.{NodeState, deploying, active, same_state}
use pacinet.Storage.State.{MemoryStorage, listed}
use pacinet.Storage.Interface.{memory}
use pacinet.Storage.Run.Invariant.{IsValid, Agree}
use pacinet.Storage.Nodes.{update_node_state}
use pacinet.Storage.Policies.{version_of, or_empty, store_policy, get_policy, get_policy_history}
use pacinet.Storage.Policies.History.{store_policy_lem}
use pacinet.Storage.Deploys.{record_deployment}
use pacinet.Deploy.Options.{
  CompileOptions, normalize_options, ensure_node_capabilities, policy_matches_request,
  requested_policy,
}
use pacinet.Deploy.Options.Laws.{matches_self}
use pacinet.Deploy.Node.{
  Env, DeployOutcome, agent_address, read_reply, deploy_to_node, skip_deploy, send_deploy,
  start_deploy, is_no_op,
}

-- The store holds what was asked for, and has it in front of the history, under the version.
abbrev pub IsStored : Env → String → String → CompileOptions → ℕ → MemoryStorage → Type 0
IsStored env k rules_yaml o version s =
    (p : Policy) × (get k s.policies ≡ some p)
    × (policy_matches_request p rules_yaml (env.hash rules_yaml) o ≡ true)
    × (listed (get_policy_history k 1 s) ≡ version_of version p ∷ [])

policies-update_node_state :
    (k : String) (x : NodeState) (s : MemoryStorage)
    → ((update_node_state k x s).1.policies ≡ s.policies)
      × ((update_node_state k x s).1.policy_versions ≡ s.policy_versions)
unfolding update_node_state
policies-update_node_state k x s = ground arith

policies-send_deploy :
    (env : Env) (node : Node) (y : String) (o : CompileOptions) (v : ℕ) (s : MemoryStorage)
    → let r = send_deploy memory env node y o v s in
      (r.0.version ≡ v) × (r.1.policies ≡ s.policies) × (r.1.policy_versions ≡ s.policy_versions)
unfolding send_deploy record_deployment
policies-send_deploy env node y o v s =
    let k = node.node_id in
    let s₁ = (update_node_state k deploying s).1 in
    let target = (read_reply env (env.agent (agent_address env node) y o)).0 in
    let (a, b) = policies-update_node_state k deploying s in
    let (c, d) = policies-update_node_state k target s₁ in (refl, c ∙ a, d ∙ b)

IsStored-of_policies :
    (env : Env) (k y : String) (o : CompileOptions) (v w : ℕ) (s t : MemoryStorage)
    → w ≡ v
    → t.policies ≡ s.policies
    → t.policy_versions ≡ s.policy_versions
    → IsStored env k y o v s
    → IsStored env k y o w t
unfolding get_policy_history
IsStored-of_policies env k y o v w s t e f g (p, a, b, c) = (
  p,
  ap (get k) f ∙ a,
  b,
  ap (λ m. take 1 (reverse (or_empty (get k m)))) g ∙ c ∙ ap (λ n. version_of n p ∷ []) (sym e),
)

IsStored-store_policy :
    (env : Env) (node : Node) (y : String) (o : CompileOptions) (v : ℕ) (s : MemoryStorage)
    → let p = requested_policy node.node_id y (env.hash y) env.now o in
      (store_policy p s).0 ≡ ok v → IsStored env node.node_id y o v (store_policy p s).1
unfolding store_policy get_policy get_policy_history requested_policy
IsStored-store_policy env node y o v s h =
    let k = node.node_id in
    let p = requested_policy k y (env.hash y) env.now o in
    let (a, b) = store_policy_lem p k 0 v s h in
    (p, simp (get-insert, eq_refl), matches_self k y (env.hash y) env.now o, b ∙ simp (eq_refl))

IsStored-start_deploy :
    (env : Env) (node : Node) (y : String) (o : CompileOptions) (s : MemoryStorage)
    → let r = start_deploy memory env node y o s in IsStored env node.node_id y o r.0.version r.1
unfolding start_deploy store_policy
IsStored-start_deploy env node y o s =
    let p = requested_policy node.node_id y (env.hash y) env.now o in
    let v = length (or_empty (get node.node_id s.policy_versions)) + 1 in
    let t = (store_policy p s).1 in
    let (e, f, g) = policies-send_deploy env node y o v t in
    IsStored-of_policies env node.node_id y o v _ t _ e f g
      (IsStored-store_policy env node y o v s refl)

take-reverse : {A : Type 0} (xs : List A) (x : A) → last? xs ≡ some x → take 1 (reverse xs) ≡ x ∷ []
take-reverse xs x h = let (ys, e) = split_last xs x h in rw (e, reverse-append ys (x ∷ [])) refl

newest-history :
    (p : Policy) (o : Option (List PolicyVersion))
    → Agree (some p) o
    → take 1 (reverse (or_empty o)) ≡ version_of (length (or_empty o)) p ∷ []
newest-history p none h = elim h [ ]
newest-history p (some vs) h = take-reverse vs _ h

IsStored-skip_deploy :
    (env : Env) (node : Node) (y : String) (o : CompileOptions) (p : Policy) (s : MemoryStorage)
    → IsValid s
    → get node.node_id s.policies ≡ some p
    → policy_matches_request p y (env.hash y) o ≡ true
    → let r = skip_deploy memory env node y s in IsStored env node.node_id y o r.0.version r.1
unfolding skip_deploy record_deployment get_policy_history version_of
IsStored-skip_deploy env node y o p s h e m =
    let k = node.node_id in
    let n =
      newest-history p (get k s.policy_versions)
        (subst (λ q. Agree q (get k s.policy_versions)) e (h.policies.agree k)) in
    (
      p,
      e,
      m,
      n
          ∙ ap
              (λ vs.
                version_of (elim (head? {A = PolicyVersion} vs) [ none ↦ 0 | some v ↦ v.version ]) p
                ∷ [])
              (sym n),
    )

-- The two ways of a deployment that the node's capabilities allow.
pub allowed :
    (env : Env) (node : Node) (y : String) (o : CompileOptions) (s : MemoryStorage)
    → ensure_node_capabilities node (normalize_options o) ≡ ok tt
    → deploy_to_node memory env node y o s ≡ (
        if is_no_op memory env node y (normalize_options o) (get node.node_id s.policies)
        then skip_deploy memory env node y s
        else start_deploy memory env node y (normalize_options o) s)
unfolding deploy_to_node get_policy
allowed env node y o s c = rw (c, deploy_to_node) refl

no_op_policy :
    (env : Env) (node : Node) (y : String) (o : CompileOptions) (q : Option Policy)
    → is_no_op memory env node y o q ≡ true
    → (p : Policy) × (q ≡ some p)
      × (same_state node.state active ≡ true)
      × (policy_matches_request p y (env.hash y) o ≡ true)
unfolding is_no_op
no_op_policy env node y o none h = absurd cc
no_op_policy env node y o (some p) h = (p, refl, ground arith, ground arith)

-- In a valid state, a deployment that the node's capabilities allow leaves the requested policy as the node's current
-- one, and the version that it answers is the newest one, with this policy; also when the agent
-- fails, and when the deployment is skipped.
pub deploy_to_node-IsStored :
    (env : Env) (node : Node) (rules_yaml : String) (o : CompileOptions) (s : MemoryStorage)
    → IsValid s
    → ensure_node_capabilities node (normalize_options o) ≡ ok tt
    → let r = deploy_to_node memory env node rules_yaml o s in
      IsStored env node.node_id rules_yaml (normalize_options o) r.0.version r.1
deploy_to_node-IsStored env node y o s h c =
    let k = node.node_id in
    let n = normalize_options o in
    let P : DeployOutcome × MemoryStorage → Type 0 = λ r. IsStored env k y n r.0.version r.1 in
    elim (Bool-cases (is_no_op memory env node y n (get k s.policies))) [
      | inl e ↦
          let (p, f, _, m) = no_op_policy env node y n (get k s.policies) e in
          subst P
            (sym (
              allowed env node y o s c
              ∙ ap
                  (λ b.
                    if b
                    then skip_deploy memory env node y s
                    else start_deploy memory env node y n s)
                  e))
            (IsStored-skip_deploy env node y n p s h f m)
      | inr e ↦
          subst P
            (sym (
              allowed env node y o s c
              ∙ ap
                  (λ b.
                    if b
                    then skip_deploy memory env node y s
                    else start_deploy memory env node y n s)
                  e))
            (IsStored-start_deploy env node y n s)
    ]
