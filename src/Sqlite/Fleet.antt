-- ===== src/Sqlite/Fleet.antt =====
-- The deployments, the stale sweep, the summary and the annotations in
-- pacinet-server/src/storage/sqlite.rs.
use pacinet.Prelude.{
  ℕ, String, ◌==◌, Option, none, some, List, [], ◌∷◌, ◌++◌, map, ok, err, length, take, keep, any,
  if◌then◌else◌,
}
use pacinet.HashMap.{HashMap, get, insert, values}
use pacinet.Error.{internal, node_not_found}
use pacinet.Model.{DateTime, Duration, Node, Policy, DeploymentRecord}
use pacinet.Model.State.{offline}
use pacinet.Storage.State.{Answer}
use pacinet.Storage.Nodes.{is_stale, summarise, remove_all, extend}
use pacinet.Sqlite.{SqliteStorage, SqlMethod, Constraints, is_node}
use pacinet.Sqlite.Logs.{OrderBy}

-- `node_id IN (...)`, and the map of what it selects.
unfoldable pub get_policies_for_nodes : List String → SqliteStorage → Answer (HashMap Policy)
get_policies_for_nodes node_ids s =
    ok (
      map (λ p. (p.node_id, p))
        (keep (λ p. any (λ i. i == p.node_id) node_ids) (values s.policies)))

-- The key is tested before the node that the row refers to; either fails as an internal error.
unfoldable pub record_deployment : Constraints → DeploymentRecord → SqlMethod (Unit {0})
unfolding is_node
record_deployment texts entry s =
    if any (λ d. d.id == entry.id) s.deployments
    then (err (internal texts.primary_key), s)
    else if is_node entry.node_id s
    then (ok tt, record s { deployments = s.deployments ++ entry ∷ [] })
    else (err (internal texts.foreign_key), s)

unfoldable pub get_deployments :
    OrderBy → String → ℕ → SqliteStorage → Answer (List DeploymentRecord)
get_deployments order node_id limit s = ok (
    take limit
      (order.descending (λ d. d.deployed_at) (keep (λ d. d.node_id == node_id) s.deployments)))

-- `UPDATE nodes SET state = 'offline'` for each of the identifiers.
unfoldable pub set_offline : List String → HashMap Node → HashMap Node
set_offline [] nodes = nodes
set_offline (id ∷ ids) nodes = set_offline ids (elim (get id nodes) [
  | none ↦ nodes
  | some node ↦ insert id (record node { state = offline }) nodes
])

unfoldable pub mark_stale_nodes : DateTime → Duration → SqlMethod (List String)
unfolding set_offline is_stale
mark_stale_nodes now threshold s =
    let stale_ids : List String =
      map (λ n. n.node_id) (keep (is_stale now threshold) (values s.nodes)) in
    (ok stale_ids, record s { nodes = set_offline stale_ids s.nodes })

-- The three queries count the rows, count them for each state, and take the least time.
unfoldable pub status_summary : SqliteStorage → Answer (ℕ × HashMap ℕ × Option DateTime)
unfolding summarise
status_summary s =
    let (by_state, oldest) = summarise (values s.nodes) [] none in
    ok (length s.nodes, by_state, oldest)

unfoldable pub update_annotations : String → HashMap String → List String → SqlMethod (Unit {0})
unfolding remove_all extend
update_annotations node_id set_entries removed s = elim (get node_id s.nodes) [
  | none ↦ (err (node_not_found node_id), s)
  | some node ↦ (
    ok tt,
    record s {
      nodes =
          insert node_id
            (record node { annotations = extend (remove_all removed node.annotations) set_entries })
            s.nodes;
    },
  )
]
