-- ===== src/Service/Nodes/Laws.antt =====
-- The lists of nodes agree with what is asked of one node.
use pacinet.Prelude.{
  String, ◌==◌, ◌≡◌, ◌⊎◌, ◌∙◌, inl, inr, refl, sym, ap, Option, none, some, List, [], ◌∷◌, map, ok,
  ◌%◌, IsIn-of_IsIn-keep, arith, eq_iff, IsIn, All, Bool-cases, Option-cases, length,
}
use pacinet.HashMap.{HashMap, get, insert, values}
use pacinet.HashMap.Laws.{IsFunctional, Entries, get-insert}
use pacinet.Error.{PaciNetError}
use pacinet.Model.{Node, Policy}
use pacinet.Storage.State.{MemoryStorage, listed}
use pacinet.Storage.Policies.{find_policies}
use pacinet.Storage.Policies
use pacinet.Storage.Nodes
use pacinet.Storage.Run.Invariant.{IsValid}
use pacinet.Deploy.Fleet.{u32_size}
use pacinet.Service.{blocking}
use pacinet.Service.Nodes.{
  node_to_proto, fleet_summary, tally_states, list_nodes, get_node, find_node, get_fleet_status,
}

get-find_policies :
    (k : String) (ids : List String) (ps found : HashMap Policy)
    → (get k found ≡ none) ⊎ (get k found ≡ get k ps)
    → IsIn k ids ⊎ (get k found ≡ get k ps)
    → get k (find_policies ids ps found) ≡ get k ps
unfolding find_policies
get-find_policies k [] ps found a (inr e) = e
get-find_policies k [] ps found a (inl m) = elim m [ ]
get-find_policies k (i ∷ ids) ps found a m = elim (Option-cases (get i ps)) [
  | inl e ↦
      rw (e, find_policies)
        (get-find_policies k ids ps found a (elim m [
          | inl (inl q) ↦ inr (absent (ap (λ x. get x ps) q ∙ e))
          | inl (inr r) ↦ inl r
          | inr r ↦ inr r
        ]))
  | inr (p, e) ↦
      let added = get-insert i k p found in
      elim (Bool-cases (i == k)) [
        | inl q ↦
            let here : get k (insert i p found) ≡ get k ps =
              ground (arith, added, q, e, ap (λ x. get x ps) ((eq_iff i k).0 q)) in
            rw (e, find_policies)
              (get-find_policies k ids ps (insert i p found) (inr here) (inr here))
        | inr q ↦
            let same : get k (insert i p found) ≡ get k found = ground (arith, added, q) in
            rw (e, find_policies)
              (get-find_policies k ids ps (insert i p found)
                (elim a [ inl x ↦ inl (same ∙ x) | inr x ↦ inr (same ∙ x) ])
                (elim m [
                  | inl (inl x) ↦ absurd (ground (arith, x, q, eq_iff i k))
                  | inl (inr x) ↦ inl x
                  | inr x ↦ inr (same ∙ x)
                ]))
      ]
]
  where
    absent : get k ps ≡ none → get k found ≡ get k ps
    absent n = elim a [ inl x ↦ x ∙ sym n | inr x ↦ x ]

-- For the nodes of a list, the fetched policies are the stored ones.
map_fetched :
    {B : Type 0} (f : Node → Option Policy → B) (ids : List String) (ps : HashMap Policy)
    (nodes : List Node)
    → All (λ n. IsIn n.node_id ids) nodes
    → map (λ n. f n (get n.node_id (find_policies ids ps []))) nodes
      ≡ map (λ n. f n (get n.node_id ps)) nodes
unfolding get
map_fetched f ids ps [] h = refl
map_fetched f ids ps (n ∷ ns) h =
    rw (get-find_policies n.node_id ids ps [] (inl refl) (inl h.0), map_fetched f ids ps ns h.1)
      refl

All-ids :
    (nodes : List Node) (ids : List String)
    → ((x : String) → IsIn x (map (λ n. n.node_id) nodes) → IsIn x ids)
    → All (λ n. IsIn n.node_id ids) nodes
All-ids [] ids h = tt
All-ids (n ∷ ns) ids h = (h n.node_id (inl refl), All-ids ns ids (λ x m. h x (inr m)))

-- A value of a map whose keys are the names of its values is found under its name.
get-of_IsIn-values :
    (n : Node) (m : HashMap Node)
    → IsFunctional m
    → Entries (λ k x. x.node_id ≡ k) m
    → IsIn n (values m)
    → get n.node_id m ≡ some n
unfolding get
get-of_IsIn-values n [] f e i = elim i [ ]
get-of_IsIn-values n ((k, x) ∷ m) f e (inl q) = ground (arith, q, e.0, eq_iff k n.node_id)
get-of_IsIn-values n ((k, x) ∷ m) f e (inr i) =
    let later = get-of_IsIn-values n m f.1 e.1 i in ground (arith, later, f.0, eq_iff k n.node_id)

-- The list of the nodes that have the labels shows each with the hash of its stored policy, and the state
-- of the fleet shows the same nodes with the same hashes; on a valid store each entry of the list is
-- what `get_node` answers for that node.
pub list_nodes-get_node :
    (error_text : PaciNetError → String) (label_filter : HashMap String) (n : Node)
    (s : MemoryStorage)
    → IsValid s
    → let nodes = listed (Nodes.list_nodes label_filter s) in
      IsIn n nodes
      → (list_nodes error_text label_filter s
          ≡ ok (map (λ x. node_to_proto x (get x.node_id s.policies)) nodes))
        × (get_fleet_status error_text label_filter s
            ≡ ok (record {
              total_nodes = length nodes % u32_size;
              nodes_by_state = tally_states nodes [];
              nodes = map (λ x. fleet_summary x (get x.node_id s.policies)) nodes;
            }))
        × (get_node error_text n.node_id s ≡ ok (node_to_proto n (get n.node_id s.policies)))
unfolding list_nodes get_fleet_status get_node find_node blocking Nodes.list_nodes Nodes.get_node
    Policies.get_policy Policies.get_policies_for_nodes
list_nodes-get_node error_text label_filter n s h m =
    let nodes = listed (Nodes.list_nodes label_filter s) in
    let ids = map (λ x. x.node_id) nodes in
    let all = All-ids nodes ids (λ x i. i) in
    let found =
      get-of_IsIn-values n s.nodes h.nodes.functional h.nodes.keyed
        (IsIn-of_IsIn-keep (Nodes.matches_labels label_filter) n (values s.nodes) m).0 in
    (
      ap ok (map_fetched node_to_proto ids s.policies nodes all),
      ap
          (λ l. ok (record {
            total_nodes = length nodes % u32_size;
            nodes_by_state = tally_states nodes [];
            nodes = l;
          }))
          (map_fetched fleet_summary ids s.policies nodes all),
      rw (found, get_node) refl,
    )
