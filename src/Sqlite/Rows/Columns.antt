-- ===== src/Sqlite/Rows/Columns.antt =====
-- The functions between the records and their rows: the parameters of the `INSERT` statements of
-- pacinet-server/src/storage/sqlite.rs, and its functions row_to_*.
use pacinet.Prelude.{ℕ, ok, ◌>>=◌}
use pacinet.Model.{Node, Policy, PolicyVersion, DeploymentRecord}
use pacinet.Model.State
use pacinet.Model.Deployment
use pacinet.Storage.State.{Answer}
use pacinet.Sqlite.Rows.{
  Formats, NodeRow, PolicyRow, PolicyVersionRow, DeploymentRow, or_internal, or_no_entries, of_bool,
  to_bool, to_u32, to_u64,
}

module _ (formats : Formats) where
  -- The parameters of `INSERT INTO nodes`.
  unfoldable pub node_to_row : Node → Answer NodeRow
  node_to_row node = do
    labels ← or_internal (formats.to_json node.labels)
    capabilities ← or_internal (formats.to_json node.capabilities)
    annotations ← or_internal (formats.to_json node.annotations)
    ok (record {
      node_id = node.node_id;
      hostname = node.hostname;
      agent_address = node.agent_address;
      labels = labels;
      capabilities = capabilities;
      state = State.display node.state;
      registered_at = formats.to_rfc3339 node.registered_at;
      last_heartbeat = formats.to_rfc3339 node.last_heartbeat;
      pacgate_version = node.pacgate_version;
      uptime_seconds = node.uptime_seconds;
      annotations = annotations;
    })

  unfoldable pub row_to_node : NodeRow → Answer Node
  unfolding to_u64
  row_to_node row = do
    labels ← or_internal (formats.from_json row.labels)
    capabilities ← or_internal (formats.from_json row.capabilities)
    state ← or_internal (State.from_str row.state)
    registered_at ← or_internal (formats.parse_from_rfc3339 row.registered_at)
    last_heartbeat ← or_internal (formats.parse_from_rfc3339 row.last_heartbeat)
    ok (record {
      node_id = row.node_id;
      hostname = row.hostname;
      agent_address = row.agent_address;
      labels = labels;
      capabilities = capabilities;
      state = state;
      registered_at = registered_at;
      last_heartbeat = last_heartbeat;
      pacgate_version = row.pacgate_version;
      uptime_seconds = to_u64 row.uptime_seconds;
      annotations = or_no_entries (formats.from_json row.annotations);
    })

  -- The parameters of `INSERT OR REPLACE INTO policies`.
  unfoldable pub policy_to_row : Policy → PolicyRow
  policy_to_row p = record {
    node_id = p.node_id;
    rules_yaml = p.rules_yaml;
    policy_hash = p.policy_hash;
    deployed_at = formats.to_rfc3339 p.deployed_at;
    counters_enabled = of_bool p.counters_enabled;
    rate_limit_enabled = of_bool p.rate_limit_enabled;
    conntrack_enabled = of_bool p.conntrack_enabled;
    axi_enabled = of_bool p.axi_enabled;
    ports = p.ports;
    target = p.target;
    dynamic = of_bool p.dynamic;
    dynamic_entries = p.dynamic_entries;
    width = p.width;
    ptp = of_bool p.ptp;
    rss = of_bool p.rss;
    rss_queues = p.rss_queues;
    int = of_bool p.int;
    int_switch_id = p.int_switch_id;
  }

  unfoldable pub row_to_policy : PolicyRow → Answer Policy
  unfolding to_u32
  row_to_policy row = do
    deployed_at ← or_internal (formats.parse_from_rfc3339 row.deployed_at)
    ok (record {
      node_id = row.node_id;
      rules_yaml = row.rules_yaml;
      policy_hash = row.policy_hash;
      deployed_at = deployed_at;
      counters_enabled = to_bool row.counters_enabled;
      rate_limit_enabled = to_bool row.rate_limit_enabled;
      conntrack_enabled = to_bool row.conntrack_enabled;
      axi_enabled = to_bool row.axi_enabled;
      ports = to_u32 row.ports;
      target = row.target;
      dynamic = to_bool row.dynamic;
      dynamic_entries = to_u32 row.dynamic_entries;
      width = to_u32 row.width;
      ptp = to_bool row.ptp;
      rss = to_bool row.rss;
      rss_queues = to_u32 row.rss_queues;
      int = to_bool row.int;
      int_switch_id = to_u32 row.int_switch_id;
    })

  -- The parameters of `INSERT INTO policy_versions`.
  unfoldable pub version_to_row : ℕ → Policy → PolicyVersionRow
  version_to_row version p = record {
    version = version;
    node_id = p.node_id;
    rules_yaml = p.rules_yaml;
    policy_hash = p.policy_hash;
    deployed_at = formats.to_rfc3339 p.deployed_at;
    counters_enabled = of_bool p.counters_enabled;
    rate_limit_enabled = of_bool p.rate_limit_enabled;
    conntrack_enabled = of_bool p.conntrack_enabled;
    axi_enabled = of_bool p.axi_enabled;
    ports = p.ports;
    target = p.target;
    dynamic = of_bool p.dynamic;
    dynamic_entries = p.dynamic_entries;
    width = p.width;
    ptp = of_bool p.ptp;
    rss = of_bool p.rss;
    rss_queues = p.rss_queues;
    int = of_bool p.int;
    int_switch_id = p.int_switch_id;
  }

  unfoldable pub row_to_policy_version : PolicyVersionRow → Answer PolicyVersion
  unfolding to_u32 to_u64
  row_to_policy_version row = do
    deployed_at ← or_internal (formats.parse_from_rfc3339 row.deployed_at)
    ok (record {
      version = to_u64 row.version;
      node_id = row.node_id;
      rules_yaml = row.rules_yaml;
      policy_hash = row.policy_hash;
      deployed_at = deployed_at;
      counters_enabled = to_bool row.counters_enabled;
      rate_limit_enabled = to_bool row.rate_limit_enabled;
      conntrack_enabled = to_bool row.conntrack_enabled;
      axi_enabled = to_bool row.axi_enabled;
      ports = to_u32 row.ports;
      target = row.target;
      dynamic = to_bool row.dynamic;
      dynamic_entries = to_u32 row.dynamic_entries;
      width = to_u32 row.width;
      ptp = to_bool row.ptp;
      rss = to_bool row.rss;
      rss_queues = to_u32 row.rss_queues;
      int = to_bool row.int;
      int_switch_id = to_u32 row.int_switch_id;
    })

  -- The parameters of `INSERT INTO deployments`.
  unfoldable pub deployment_to_row : DeploymentRecord → DeploymentRow
  deployment_to_row d = record {
    id = d.id;
    node_id = d.node_id;
    policy_version = d.policy_version;
    policy_hash = d.policy_hash;
    deployed_at = formats.to_rfc3339 d.deployed_at;
    result = Deployment.display d.result;
    message = d.message;
  }

  unfoldable pub row_to_deployment : DeploymentRow → Answer DeploymentRecord
  unfolding to_u64
  row_to_deployment row = do
    deployed_at ← or_internal (formats.parse_from_rfc3339 row.deployed_at)
    result ← or_internal (Deployment.from_str row.result)
    ok (record {
      id = row.id;
      node_id = row.node_id;
      policy_version = to_u64 row.policy_version;
      policy_hash = row.policy_hash;
      deployed_at = deployed_at;
      result = result;
      message = row.message;
    })
