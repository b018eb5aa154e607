-- ===== src/Storage/Nodes/Changes.antt =====
-- What a client reads of the nodes after a state change, a removal and a sweep for stale nodes.
use mathlib.Core.Option
use pacinet.Prelude.{
  ◌<◌, ◌+◌, ◌≢◌, ap, sym, ◌∙◌, ℕ, take-nil, String, ◌==◌, ◌≡◌, ◌↔◌, refl, Bool, true, false, Option,
  none, some, List, [], ◌∷◌, arith, eq_iff, ok, err, Bool-cases, Option-cases, inl, inr, IsIn,
  if◌then◌else◌,
}
use pacinet.HashMap.{HashMap, get, set_contains}
use pacinet.HashMap.Laws.{
  get-insert, get-remove, set_contains-remove, Entries, IsIn-of_get, get_of_in,
}
use pacinet.HashMap.Keyed.{IsKeyedBy}
use pacinet.Error.{invalid_state_transition}
use pacinet.Model.{Node, DateTime, Duration}
use pacinet.Model.State.{NodeState, offline, registered, can_transition_to, display}
use pacinet.Storage.Run.Invariant.{IsValid}
use pacinet.Storage.State.{MemoryStorage, Answer, listed}
use pacinet.Storage.Nodes.{
  get_node, get_counters, get_flow_counters, remove_node, update_node_state, is_stale, mark_stale,
  mark_stale_nodes,
}
use pacinet.Storage.Policies.{get_policy, get_policy_history}
use pacinet.Storage.Deploys.{get_deployments}

-- The specification of a state change: what the caller is told, and what becomes of the node.
abbrev pub change_answer : NodeState → Option Node → Answer Bool
change_answer target none = ok false
change_answer target (some n) =
    if can_transition_to n.state target
    then ok true
    else err (invalid_state_transition (display n.state) (display target))

abbrev pub changed : NodeState → Node → Node
changed target n = if can_transition_to n.state target then record n { state = target } else n

-- A state change answers `true` for a legal transition of a known node, `false` for an unknown
-- node and an error for an illegal transition; it moves the node exactly in the first case, and
-- no other node ever.
pub update_node_state_lem :
    (k j : String) (target : NodeState) (s : MemoryStorage)
    → ((update_node_state k target s).0 ≡ change_answer target (get k s.nodes))
      × (get j (update_node_state k target s).1.nodes
          ≡ (if k == j then Option.map (changed target) (get j s.nodes) else get j s.nodes))
unfolding update_node_state
update_node_state_lem k j target s = (
  ground arith,
  elim (Option-cases (get k s.nodes)) [
    | inl e ↦ ground (arith, e, eq_iff k j)
    | inr (n, e) ↦
        ground (arith, e, eq_iff k j, get-insert k j (record n { state = target }) s.nodes)
  ],
)

-- After its removal no record, policy, history, counters or deploy guard is left of a node; and all that is
-- read of another node is as before. The deployment records are as before too, those of the removed node
-- included.
pub remove_node_forgets :
    (k j : String) (limit : ℕ) (s : MemoryStorage)
    → let t = (remove_node k s).1 in
      (get_node j t ≡ (if k == j then ok none else get_node j s))
      × (get_policy j t ≡ (if k == j then ok none else get_policy j s))
      × (get_policy_history j limit t ≡ (if k == j then ok [] else get_policy_history j limit s))
      × (get_counters j t ≡ (if k == j then ok none else get_counters j s))
      × (get_flow_counters j t ≡ (if k == j then ok none else get_flow_counters j s))
      × (set_contains j t.deploying ≡ (if k == j then false else set_contains j s.deploying))
      × (get_deployments j limit t ≡ get_deployments j limit s)
unfolding remove_node get_deployments get_node get_policy get_policy_history get_counters
    get_flow_counters
remove_node_forgets k j limit s = elim (Bool-cases (k == j)) [
  | inl e ↦
      simp (get-remove, set_contains-remove, e, take-nil) (refl, refl, refl, refl, refl, refl, refl)
  | inr e ↦ simp (get-remove, set_contains-remove, e) (refl, refl, refl, refl, refl, refl, refl)
]

-- The node as a sweep leaves it.
abbrev pub swept : DateTime → Duration → Node → Node
swept now threshold n = if is_stale now threshold n then record n { state = offline } else n

get-mark_stale :
    (now : DateTime) (d : Duration) (k : String) (m : HashMap Node)
    → get k (mark_stale now d m).1 ≡ Option.map (swept now d) (get k m)
unfolding mark_stale get
get-mark_stale now d k [] = refl
get-mark_stale now d k ((j, n) ∷ m) = ground (arith, get-mark_stale now d k m)

-- The sweep over a map whose nodes stand under their own names.
node_of_IsIn-mark_stale :
    (now : DateTime) (d : Duration) (id : String) (m : HashMap Node)
    → Entries (λ k n. n.node_id ≡ k) m
    → IsIn id (mark_stale now d m).0
    → (n : Node) × IsIn (id, n) m × (is_stale now d n ≡ true)
unfolding mark_stale
node_of_IsIn-mark_stale now d id [] e h = elim h [ ]
node_of_IsIn-mark_stale now d id ((j, n) ∷ m) e h =
    split (is_stale now d n) refl (node_of_IsIn-mark_stale now d id m e.1) h
  where
    split :
        (b : Bool)
        → is_stale now d n ≡ b
        → (IsIn id (mark_stale now d m).0 → (x : Node) × IsIn (id, x) m × (is_stale now d x ≡ true))
        → IsIn id
            (if◌then◌else◌ {A = List String × HashMap Node} b
              (
                n.node_id ∷ (mark_stale now d m).0,
                (j, record n { state = offline }) ∷ (mark_stale now d m).1,
              )
              ((mark_stale now d m).0, (j, n) ∷ (mark_stale now d m).1)).0
        → (x : Node) × IsIn (id, x) ((j, n) ∷ m) × (is_stale now d x ≡ true)
    split true q ih (inl p) = (n, inl (ground (arith, e.0)), q)
    split true q ih (inr p) = let (x, i, t) = ih p in (x, inr i, t)
    split false q ih p = let (x, i, t) = ih p in (x, inr i, t)

IsIn-mark_stale :
    (now : DateTime) (d : Duration) (id : String) (n : Node) (m : HashMap Node)
    → Entries (λ k n. n.node_id ≡ k) m
    → IsIn (id, n) m
    → is_stale now d n ≡ true
    → IsIn id (mark_stale now d m).0
unfolding mark_stale
IsIn-mark_stale now d id n [] e h t = elim h [ ]
IsIn-mark_stale now d id n ((j, x) ∷ m) e (inl p) t =
    let named : id ≡ x.node_id = ap (λ q. q.0) p ∙ sym e.0 in
    let same : n ≡ x = ap (λ q. q.1) p in rw (ap (is_stale now d) (sym same) ∙ t) (inl named)
IsIn-mark_stale now d id n ((j, x) ∷ m) e (inr p) t = elim (Bool-cases (is_stale now d x)) [
  | inl y ↦ rw y (inr (IsIn-mark_stale now d id n m e.1 p t))
  | inr y ↦ rw y (IsIn-mark_stale now d id n m e.1 p t)
]

nothing_stale :
    (now : DateTime) (d : Duration) (m : HashMap Node)
    → (mark_stale now d (mark_stale now d m).1).0 ≡ []
unfolding mark_stale is_stale
nothing_stale now d [] = refl
nothing_stale now d ((j, n) ∷ m) = ground (arith, nothing_stale now d m)

-- A node that should be heard from, and has not been for longer than the threshold.
abbrev pub IsStale : DateTime → Duration → Node → Type 0
IsStale now d n = (n.state ≢ offline) × (n.state ≢ registered) × (n.last_heartbeat + d < now)

pub IsStale-of_test :
    (now : DateTime) (d : Duration) (n : Node) → is_stale now d n ≡ true → IsStale now d n
unfolding is_stale
IsStale-of_test now d n h = ground arith

pub test_of_stale :
    (now : DateTime) (d : Duration) (n : Node) → IsStale now d n → is_stale now d n ≡ true
unfolding is_stale
test_of_stale now d n h = ground arith

-- A sweep of nodes that stand under their own names.
pub mark_stale_nodes-IsKeyedBy :
    (now : DateTime) (d : Duration) (id : String) (s : MemoryStorage)
    → IsKeyedBy (λ n. n.node_id) s.nodes
    → (IsIn id (listed (mark_stale_nodes now d s).0)
        ↔ ((n : Node) × (get id s.nodes ≡ some n) × IsStale now d n))
      × (get id (mark_stale_nodes now d s).1.nodes ≡ Option.map (swept now d) (get id s.nodes))
unfolding mark_stale_nodes
mark_stale_nodes-IsKeyedBy now d id s h = (
  (
    λ i.
        let (n, m, t) = node_of_IsIn-mark_stale now d id s.nodes h.keyed i in
        (n, get_of_in id n s.nodes h.functional m, IsStale-of_test now d n t),
    λ w.
        IsIn-mark_stale now d id w.0 s.nodes h.keyed (IsIn-of_get id w.0 s.nodes w.1)
          (test_of_stale now d w.0 w.2),
  ),
  get-mark_stale now d id s.nodes,
)

-- In a valid state a sweep reports exactly the identifiers of the stale nodes, makes these nodes
-- `Offline`, and leaves the other nodes as they are.
pub mark_stale_nodes_lem :
    (now : DateTime) (d : Duration) (id : String) (s : MemoryStorage)
    → IsValid s
    → (IsIn id (listed (mark_stale_nodes now d s).0)
        ↔ ((n : Node) × (get id s.nodes ≡ some n) × IsStale now d n))
      × (get id (mark_stale_nodes now d s).1.nodes ≡ Option.map (swept now d) (get id s.nodes))
mark_stale_nodes_lem now d id s h = mark_stale_nodes-IsKeyedBy now d id s h.nodes

-- A second sweep at the same time finds nothing.
pub mark_stale_nodes_again :
    (now : DateTime) (d : Duration) (s : MemoryStorage)
    → (mark_stale_nodes now d (mark_stale_nodes now d s).1).0 ≡ ok []
unfolding mark_stale_nodes
mark_stale_nodes_again now d s = ap ok (nothing_stale now d s.nodes)
