-- ===== src/Deploy/Fleet/Counts.antt =====
-- The numbers and the list of results that a deployment to several nodes answers.
use mathlib.Core.Path.{subst}
use mathlib.Core.List.{append-nil, append_assoc}
use pacinet.Prelude.{
  ℕ, suc, ◌+◌, ◌%◌, ◌<◌, String, ◌≡◌, ◌∙◌, sym, ap, refl, Bool, List, [], ◌∷◌, ◌++◌, map,
  Result-cases, inl, inr, length, keep, not, arith, if◌then◌else◌,
}
use pacinet.Model.{Node}
use pacinet.Fsm.Instance.{NodeActionResult}
use pacinet.Storage.Interface.{Storage}
use pacinet.Deploy.Options.{CompileOptions}
use pacinet.Deploy.Node.{Env}
use pacinet.Deploy.Fleet.{u32_size, Tally, push_result, deploy_one, deploy_from, deploy_to_nodes}

-- The results are one for each of the nodes done so far, in their order, and the counters count them.
record Counts (done : List String) (t : Tally) : Type 0 where
  ids : map (λ (r : NodeActionResult). r.node_id) t.node_results ≡ done
  succeeded :
      t.succeeded ≡ length (keep (λ (r : NodeActionResult). r.success) t.node_results) % u32_size
  failed :
      t.failed ≡ length (keep (λ (r : NodeActionResult). not r.success) t.node_results) % u32_size

map_concat :
    {A B : Type 0} (f : A → B) (xs : List A) (x : A) → map f (xs ++ x ∷ []) ≡ map f xs ++ f x ∷ []
map_concat f [] x = refl
map_concat f (y ∷ xs) x = ap (λ t. f y ∷ t) (map_concat f xs x)

count-concat :
    {A : Type 0} (p : A → Bool) (xs : List A) (x : A)
    → length (keep p (xs ++ x ∷ [])) ≡ length (keep p xs) + (if p x then 1 else 0)
count-concat p [] x = ground arith
count-concat p (y ∷ xs) x = ground (arith, count-concat p xs x)

length-map : {A B : Type 0} (f : A → B) (xs : List A) → length (map f xs) ≡ length xs
length-map f [] = refl
length-map f (x ∷ xs) = ap suc (length-map f xs)

split_count :
    {A : Type 0} (p : A → Bool) (xs : List A)
    → length (keep p xs) + length (keep (λ x. not (p x)) xs) ≡ length xs
split_count p [] = omega arith
split_count p (x ∷ xs) = ground (arith, split_count p xs)

Counts-push_result :
    (done : List String) (node : Node) (b : Bool) (m : String) (t : Tally)
    → Counts done t
    → Counts (done ++ node.node_id ∷ []) (push_result node b m t)
Counts-push_result done node b m t h = record {
  ids = map_concat _ t.node_results _ ∙ ap (λ ids. ids ++ node.node_id ∷ []) h.ids;
  succeeded = ground (
    arith,
    h.succeeded,
    count-concat (λ (r : NodeActionResult). r.success) t.node_results
        (record { node_id = node.node_id; success = b; message = m }),
  );
  failed = ground (
    arith,
    h.failed,
    count-concat (λ (r : NodeActionResult). not r.success) t.node_results
        (record { node_id = node.node_id; success = b; message = m }),
  );
}

module _ (st : Storage) (envs : ℕ → Env) (y : String) (o : CompileOptions) where
  Counts-deploy_one :
      (done : List String) (i : ℕ) (node : Node) (t : Tally) (s : st.State)
      → Counts done t
      → Counts (done ++ node.node_id ∷ []) (deploy_one st envs y o i node t s).0
  unfolding deploy_one
  Counts-deploy_one done i node t s h = elim (Result-cases (st.begin_deploy node.node_id s).0) [
    | inl (a, e) ↦ rw (e, deploy_one) (Counts-push_result done node _ _ t h)
    | inr (x, e) ↦ rw (e, deploy_one) (Counts-push_result done node _ _ t h)
  ]

  Counts-deploy_from :
      (done : List String) (i : ℕ) (nodes : List Node) (t : Tally) (s : st.State)
      → Counts done t
      → Counts (done ++ map (λ (n : Node). n.node_id) nodes) (deploy_from st envs y o i nodes t s).0
  unfolding deploy_from
  Counts-deploy_from done i [] t s h = rw (append-nil done) h
  Counts-deploy_from done i (n ∷ ns) t s h =
      subst (λ ids. Counts ids (deploy_from st envs y o i (n ∷ ns) t s).0)
        (append_assoc done (n.node_id ∷ []) (map (λ (n : Node). n.node_id) ns))
        (Counts-deploy_from (done ++ n.node_id ∷ []) (suc i) ns _ _
          (Counts-deploy_one done i n t s h))

-- The results come for the nodes in their order, one for each, and the numbers are the number of the
-- successes, of the failures and of the nodes; the first two add up to the third. This is so for fewer than 2^32 nodes.
pub deploy_to_nodes-counts :
    (st : Storage) (envs : ℕ → Env) (rules_yaml : String) (o : CompileOptions) (nodes : List Node)
    (s : st.State)
    → length nodes < u32_size
    → let r = (deploy_to_nodes st envs rules_yaml o nodes s).0 in
      (map (λ (x : NodeActionResult). x.node_id) r.node_results
        ≡ map (λ (n : Node). n.node_id) nodes)
      × (r.succeeded ≡ length (keep (λ (x : NodeActionResult). x.success) r.node_results))
      × (r.failed ≡ length (keep (λ (x : NodeActionResult). not x.success) r.node_results))
      × (r.total ≡ length nodes)
      × (r.succeeded + r.failed ≡ r.total)
unfolding deploy_to_nodes
deploy_to_nodes-counts st envs y o nodes s b =
    let t₀ : Tally = record { succeeded = 0; failed = 0; node_results = [] } in
    let t = (deploy_from st envs y o 0 nodes t₀ s).0 in
    let h =
      Counts-deploy_from st envs y o [] 0 nodes t₀ s
        (record { ids = refl; succeeded = refl; failed = refl }) in
    let n = length-map (λ (r : NodeActionResult). r.node_id) t.node_results in
    let m = length-map (λ (x : Node). x.node_id) nodes in
    let c = split_count (λ (r : NodeActionResult). r.success) t.node_results in
    let a : length t.node_results ≡ length nodes = sym n ∙ ap length h.ids ∙ m in
    (
      h.ids,
      omega (arith, h.succeeded, a, c, b),
      omega (arith, h.failed, a, c, b),
      omega arith,
      omega (arith, h.succeeded, h.failed, a, c, b),
    )
