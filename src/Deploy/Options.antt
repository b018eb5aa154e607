-- ===== src/Deploy/Options.antt =====
-- The compile options of a request: their defaults, the capabilities that they need, and when a policy
-- already is what a request asks for.
pub mod Laws
use pacinet.Prelude.{
  ℕ, String, ◌==◌, Bool, true, false, not, ◌&&◌, Option, none, some, Result, ok, err, ◌>>=◌, ◌>>◌,
  eqb, ltb, if◌then◌else◌,
}
use pacinet.Text.{to_lowercase, ◌<>◌}
use pacinet.HashMap.{get}
use pacinet.Model.{Node, Policy, DateTime}

-- `message CompileOptions` of proto/pacinet.proto.
pub record CompileOptions : Type 0 where
  pub counters : Bool
  pub rate_limit : Bool
  pub conntrack : Bool
  pub axi : Bool
  pub ports : ℕ
  pub target : String
  pub dynamic : Bool
  pub dynamic_entries : ℕ
  pub width : ℕ
  pub ptp : Bool
  pub rss : Bool
  pub rss_queues : ℕ
  pub int_enabled : Bool
  pub int_switch_id : ℕ

-- `CompileOptions::default()`: the zero of every field.
abbrev pub default_options : CompileOptions
default_options = record {
  counters = false;
  rate_limit = false;
  conntrack = false;
  axi = false;
  ports = 0;
  target = "";
  dynamic = false;
  dynamic_entries = 0;
  width = 0;
  ptp = false;
  rss = false;
  rss_queues = 0;
  int_enabled = false;
  int_switch_id = 0;
}

unfoldable pub normalize_options : CompileOptions → CompileOptions
normalize_options o = record o {
  ports = if eqb o.ports 0 then 1 else o.ports;
  dynamic_entries = if eqb o.dynamic_entries 0 then 16 else o.dynamic_entries;
  width = if eqb o.width 0 then 8 else o.width;
  rss_queues = if eqb o.rss_queues 0 then 4 else o.rss_queues;
  target = if o.target == "" then "standalone" else o.target;
}

-- `eq_ignore_ascii_case("true")` compares the ASCII lower cases.
unfoldable pub capability_true : Node → String → Bool
capability_true node key = elim (get key node.capabilities) [
  | none ↦ false
  | some v ↦ to_lowercase v == "true"
]

-- `if needed && !capability_true(node, key) { return Err(…) }`
unfoldable pub require : Node → Bool → String → Result (Unit {0}) String
require node needed key =
    if needed && not (capability_true node key)
    then err ("Node '" <> node.node_id <> "' does not advertise " <> key <> " capability")
    else ok tt

unfoldable pub ensure_node_capabilities : Node → CompileOptions → Result (Unit {0}) String
unfolding require
ensure_node_capabilities node o = do
  require node o.axi "compile.axi"
  require node (ltb 1 o.ports) "compile.ports"
  require node o.dynamic "compile.dynamic"
  require node (ltb 8 o.width) "compile.width"
  require node (not (o.target == "") && not (o.target == "standalone")) "compile.target"
  require node o.ptp "compile.ptp"
  require node o.rss "compile.rss"
  require node (not (eqb o.rss_queues 4)) "compile.rss_queues"
  require node o.int_enabled "compile.int"
  require node (not (eqb o.int_switch_id 0)) "compile.int_switch_id"

abbrev pub same_bool : Bool → Bool → Bool
same_bool true b = b
same_bool false b = not b

unfoldable pub policy_matches_request : Policy → String → String → CompileOptions → Bool
policy_matches_request current rules_yaml policy_hash o =
    current.rules_yaml == rules_yaml
    && current.policy_hash == policy_hash
    && same_bool current.counters_enabled o.counters
    && same_bool current.rate_limit_enabled o.rate_limit
    && same_bool current.conntrack_enabled o.conntrack
    && same_bool current.axi_enabled o.axi
    && eqb current.ports o.ports
    && current.target == o.target
    && same_bool current.dynamic o.dynamic
    && eqb current.dynamic_entries o.dynamic_entries
    && eqb current.width o.width
    && same_bool current.ptp o.ptp
    && same_bool current.rss o.rss
    && eqb current.rss_queues o.rss_queues
    && same_bool current.int o.int_enabled
    && eqb current.int_switch_id o.int_switch_id

-- The `Policy` that `deploy_to_node` stores.
unfoldable pub requested_policy : String → String → String → DateTime → CompileOptions → Policy
requested_policy node_id rules_yaml policy_hash now o = record {
  node_id = node_id;
  rules_yaml = rules_yaml;
  policy_hash = policy_hash;
  deployed_at = now;
  counters_enabled = o.counters;
  rate_limit_enabled = o.rate_limit;
  conntrack_enabled = o.conntrack;
  axi_enabled = o.axi;
  ports = o.ports;
  target = o.target;
  dynamic = o.dynamic;
  dynamic_entries = o.dynamic_entries;
  width = o.width;
  ptp = o.ptp;
  rss = o.rss;
  rss_queues = o.rss_queues;
  int = o.int_enabled;
  int_switch_id = o.int_switch_id;
}
