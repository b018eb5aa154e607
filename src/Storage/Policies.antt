-- ===== src/Storage/Policies.antt =====
-- The policies of `MemoryStorage` and their versions.
pub mod History
use mathlib.Core.List.{reverse}
use pacinet.Prelude.{ℕ, ◌+◌, String, Option, none, some, List, [], ◌∷◌, ◌++◌, ok, length, take}
use pacinet.HashMap.{HashMap, get, insert}
use pacinet.Model.{Policy, PolicyVersion}
use pacinet.Storage.State.{MemoryStorage, Answer, Method}

-- `unwrap_or_default` and `or_default` at a list.
abbrev pub or_empty : {A : Type 0} → Option (List A) → List A
or_empty none = []
or_empty (some xs) = xs

-- The struct that `store_policy` pushes.
unfoldable pub version_of : ℕ → Policy → PolicyVersion
version_of version p = record {
  version = version;
  node_id = p.node_id;
  rules_yaml = p.rules_yaml;
  policy_hash = p.policy_hash;
  deployed_at = p.deployed_at;
  counters_enabled = p.counters_enabled;
  rate_limit_enabled = p.rate_limit_enabled;
  conntrack_enabled = p.conntrack_enabled;
  axi_enabled = p.axi_enabled;
  ports = p.ports;
  target = p.target;
  dynamic = p.dynamic;
  dynamic_entries = p.dynamic_entries;
  width = p.width;
  ptp = p.ptp;
  rss = p.rss;
  rss_queues = p.rss_queues;
  int = p.int;
  int_switch_id = p.int_switch_id;
}

unfoldable pub store_policy : Policy → Method ℕ
unfolding version_of
store_policy policy s =
    let history = or_empty (get policy.node_id s.policy_versions) in
    let version = length history + 1 in
    (
      ok version,
      record s {
        policy_versions =
            insert policy.node_id (history ++ version_of version policy ∷ []) s.policy_versions;
        policies = insert policy.node_id policy s.policies;
      },
    )

unfoldable pub get_policy : String → MemoryStorage → Answer (Option Policy)
get_policy node_id s = ok (get node_id s.policies)

-- Newest first.
unfoldable pub get_policy_history : String → ℕ → MemoryStorage → Answer (List PolicyVersion)
get_policy_history node_id limit s =
    ok (take limit (reverse (or_empty (get node_id s.policy_versions))))

-- The entries that are collected into the answer's map.
unfoldable pub find_policies : List String → HashMap Policy → HashMap Policy → HashMap Policy
find_policies [] policies found = found
find_policies (id ∷ ids) policies found =
    find_policies ids policies
      (elim (get id policies) [ none ↦ found | some p ↦ insert id p found ])

unfoldable pub get_policies_for_nodes : List String → MemoryStorage → Answer (HashMap Policy)
unfolding find_policies
get_policies_for_nodes node_ids s = ok (find_policies node_ids s.policies [])
