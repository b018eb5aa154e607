-- ===== src/Storage/Nodes.antt =====
-- The nodes of `MemoryStorage`: registration, heartbeats, state changes, stale nodes, the summary,
-- annotations and counters.
pub mod Changes
pub mod Summary
use pacinet.Prelude.{
  ℕ, ◌+◌, String, ◌==◌, Bool, true, false, not, ◌&&◌, Option, none, some, List, [], ◌∷◌, Result, ok,
  err, ltb, length, keep, all, is_some, if◌then◌else◌,
}
use pacinet.HashMap.{HashMap, get, insert, remove, values, set_remove}
use pacinet.Error.{PaciNetError, invalid_state_transition, node_not_found}
use pacinet.Model.{DateTime, Duration, Node, RuleCounter, FlowCounter}
use pacinet.Model.State.{NodeState, offline, registered, same_state, can_transition_to, display}
use pacinet.Storage.State.{MemoryStorage, Answer, Method}

unfoldable pub register_node : Node → Method String
register_node node s = (ok node.node_id, record s { nodes = insert node.node_id node s.nodes })

unfoldable pub get_node : String → MemoryStorage → Answer (Option Node)
get_node node_id s = ok (get node_id s.nodes)

-- `label_filter.iter().all(|(k, v)| node.labels.get(k) == Some(v))`
unfoldable pub has_label : Node → String × String → Bool
has_label node (k, v) = elim (get k node.labels) [ none ↦ false | some w ↦ w == v ]

unfoldable pub matches_labels : HashMap String → Node → Bool
unfolding has_label
matches_labels label_filter node = all (has_label node) label_filter

unfoldable pub list_nodes : HashMap String → MemoryStorage → Answer (List Node)
unfolding matches_labels
list_nodes label_filter s = ok (keep (matches_labels label_filter) (values s.nodes))

unfoldable pub remove_node : String → Method Bool
remove_node node_id s = (
  ok (is_some (get node_id s.nodes)),
  record s {
    policies = remove node_id s.policies;
    counters = remove node_id s.counters;
    flow_counters = remove node_id s.flow_counters;
    policy_versions = remove node_id s.policy_versions;
    deploying = set_remove node_id s.deploying;
    nodes = remove node_id s.nodes;
  },
)

unfoldable pub update_heartbeat : DateTime → String → NodeState → ℕ → Method Bool
update_heartbeat now node_id state uptime s = elim (get node_id s.nodes) [
  | none ↦ (ok false, s)
  | some node ↦ (
    ok true,
    record s {
      nodes =
          insert node_id
            (record node { last_heartbeat = now; state = state; uptime_seconds = uptime }) s.nodes;
    },
  )
]

unfoldable pub update_node_state : String → NodeState → Method Bool
update_node_state node_id state s = elim (get node_id s.nodes) [
  | none ↦ (ok false, s)
  | some node ↦
      if not (can_transition_to node.state state)
      then (err (invalid_state_transition (display node.state) (display state)), s)
      else (ok true, record s { nodes = insert node_id (record node { state = state }) s.nodes })
]

unfoldable pub store_counters : String → List RuleCounter → Method (Unit {0})
store_counters node_id counters s =
    (ok tt, record s { counters = insert node_id counters s.counters })

unfoldable pub get_counters : String → MemoryStorage → Answer (Option (List RuleCounter))
get_counters node_id s = ok (get node_id s.counters)

unfoldable pub store_flow_counters : String → List FlowCounter → Method (Unit {0})
store_flow_counters node_id counters s =
    (ok tt, record s { flow_counters = insert node_id counters s.flow_counters })

unfoldable pub get_flow_counters : String → MemoryStorage → Answer (Option (List FlowCounter))
get_flow_counters node_id s = ok (get node_id s.flow_counters)

-- The test of `mark_stale_nodes`; `now - last_heartbeat > threshold` for a threshold that is not
-- negative.
unfoldable pub is_stale : DateTime → Duration → Node → Bool
is_stale now threshold node =
    not (same_state node.state offline)
    && not (same_state node.state registered)
    && ltb (node.last_heartbeat + threshold) now

-- The loop over `values_mut()`: the map with the stale nodes offline, and their identifiers.
unfoldable pub mark_stale : DateTime → Duration → HashMap Node → List String × HashMap Node
unfolding is_stale
mark_stale now threshold [] = ([], [])
mark_stale now threshold ((k, node) ∷ rest) =
    let (stale, marked) = mark_stale now threshold rest in
    if is_stale now threshold node
    then (node.node_id ∷ stale, (k, record node { state = offline }) ∷ marked)
    else (stale, (k, node) ∷ marked)

unfoldable pub mark_stale_nodes : DateTime → Duration → Method (List String)
unfolding mark_stale
mark_stale_nodes now threshold s =
    let (stale, marked) = mark_stale now threshold s.nodes in
    (ok stale, record s { nodes = marked })

-- `*by_state.entry(k).or_insert(0) += 1`
unfoldable pub count_one : String → HashMap ℕ → HashMap ℕ
count_one k m = insert k (elim (get k m) [ none ↦ 1 | some n ↦ n + 1 ]) m

unfoldable pub older : Option DateTime → DateTime → Option DateTime
older none t = some t
older (some prev) t = if ltb t prev then some t else some prev

-- The loop of `status_summary`.
unfoldable pub summarise : List Node → HashMap ℕ → Option DateTime → HashMap ℕ × Option DateTime
unfolding count_one older
summarise [] by_state oldest = (by_state, oldest)
summarise (node ∷ rest) by_state oldest =
    summarise rest (count_one (display node.state) by_state) (older oldest node.last_heartbeat)

unfoldable pub status_summary : MemoryStorage → Answer (ℕ × HashMap ℕ × Option DateTime)
unfolding summarise
status_summary s =
    let (by_state, oldest) = summarise (values s.nodes) [] none in
    ok (length s.nodes, by_state, oldest)

-- `for key in remove { annotations.remove(key) }`
unfoldable pub remove_all : List String → HashMap String → HashMap String
remove_all [] m = m
remove_all (k ∷ ks) m = remove_all ks (remove k m)

-- `HashMap::extend`
unfoldable pub extend : HashMap String → HashMap String → HashMap String
extend m [] = m
extend m ((k, v) ∷ rest) = extend (insert k v m) rest

unfoldable pub update_annotations : String → HashMap String → List String → Method (Unit {0})
unfolding remove_all extend
update_annotations node_id set_entries removed s = elim (get node_id s.nodes) [
  | none ↦ (err (node_not_found node_id), s)
  | some node ↦ (
    ok tt,
    record s {
      nodes =
          insert node_id
            (record node { annotations = extend (remove_all removed node.annotations) set_entries })
            s.nodes;
    },
  )
]
