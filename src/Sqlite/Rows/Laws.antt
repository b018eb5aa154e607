-- ===== src/Sqlite/Rows/Laws.antt =====
-- The records come back from their rows.
use pacinet.Prelude.{ℕ, ◌^◌, ◌<◌, String, ◌≡◌, refl, Bool, true, false, ok, arith}
use pacinet.Text.{to_lowercase}
use pacinet.HashMap.{HashMap, get}
use pacinet.Model.{DateTime, Node, Policy, DeploymentRecord}
use pacinet.Model.State.{NodeState, registered, online, deploying, active, error, offline}
use pacinet.Model.State
use pacinet.Model.Deployment.{DeploymentResult, success, agent_failure, agent_unreachable, timeout}
use pacinet.Model.Deployment
use pacinet.Storage.Policies.{version_of}
use pacinet.Sqlite.Rows.{Formats, NodeRow, of_bool, to_bool, to_u32, to_u64}
use pacinet.Sqlite.Rows.Columns.{
  policy_to_row, row_to_policy, version_to_row, row_to_policy_version, deployment_to_row,
  row_to_deployment, node_to_row, row_to_node,
}

to_bool-of_bool : (b : Bool) → to_bool (of_bool b) ≡ b
to_bool-of_bool true = refl
to_bool-of_bool false = refl

fits_u32 : (n : ℕ) → n < 2 ^ 32 → to_u32 n ≡ n
unfolding to_u32
fits_u32 n h = omega arith

fits_u64 : (n : ℕ) → n < 2 ^ 64 → to_u64 n ≡ n
unfolding to_u64
fits_u64 n h = omega arith

from_str-display : (s : NodeState) → State.from_str (State.display s) ≡ ok s
unfolding State.from_str State.display to_lowercase
from_str-display registered = refl
from_str-display online = refl
from_str-display deploying = refl
from_str-display active = refl
from_str-display error = refl
from_str-display offline = refl

from_str-result : (r : DeploymentResult) → Deployment.from_str (Deployment.display r) ≡ ok r
unfolding Deployment.from_str Deployment.display to_lowercase
from_str-result success = refl
from_str-result agent_failure = refl
from_str-result agent_unreachable = refl
from_str-result timeout = refl

-- The numbers of a policy are of `u32`.
abbrev pub IsU32Policy : Policy → Type 0
IsU32Policy p =
    (p.ports < 2 ^ 32)
    × (p.dynamic_entries < 2 ^ 32)
    × (p.width < 2 ^ 32)
    × (p.rss_queues < 2 ^ 32)
    × (p.int_switch_id < 2 ^ 32)

-- The time is read as it was written.
abbrev pub IsReadBack : Formats → DateTime → Type 0
IsReadBack f t = f.parse_from_rfc3339 (f.to_rfc3339 t) ≡ ok t

-- The map is written, and read with the same entries.
abbrev pub IsReadBackMap : Formats → HashMap String → Type 0
IsReadBackMap f m =
    (text : String) × (read : HashMap String) × (f.to_json m ≡ ok text)
    × (f.from_json text ≡ ok read)
    × ((k : String) → get k read ≡ get k m)

-- A policy with the numbers of its types and a time that `chrono` reads back comes back from its row in
-- `policies`, and with its number from the row in `policy_versions`.
pub row_to_policy-policy_to_row :
    (f : Formats) (p : Policy) (version : ℕ)
    → IsU32Policy p
    → version < 2 ^ 64
    → IsReadBack f p.deployed_at
    → (row_to_policy f (policy_to_row f p) ≡ ok p)
      × (row_to_policy_version f (version_to_row f version p) ≡ ok (version_of version p))
unfolding row_to_policy policy_to_row row_to_policy_version version_to_row version_of
row_to_policy-policy_to_row f p version (h₁, h₂, h₃, h₄, h₅) hv ht =
    rw
      (
        ht,
        fits_u64 version hv,
        fits_u32 p.ports h₁,
        fits_u32 p.dynamic_entries h₂,
        fits_u32 p.width h₃,
        fits_u32 p.rss_queues h₄,
        fits_u32 p.int_switch_id h₅,
        to_bool-of_bool p.counters_enabled,
        to_bool-of_bool p.rate_limit_enabled,
        to_bool-of_bool p.conntrack_enabled,
        to_bool-of_bool p.axi_enabled,
        to_bool-of_bool p.dynamic,
        to_bool-of_bool p.ptp,
        to_bool-of_bool p.rss,
        to_bool-of_bool p.int,
      )
      (refl, refl)

-- A record of a deployment comes back from its row.
pub row_to_deployment-deployment_to_row :
    (f : Formats) (d : DeploymentRecord)
    → d.policy_version < 2 ^ 64
    → IsReadBack f d.deployed_at
    → row_to_deployment f (deployment_to_row f d) ≡ ok d
unfolding row_to_deployment deployment_to_row
row_to_deployment-deployment_to_row f d hv ht =
    rw (ht, fits_u64 d.policy_version hv, from_str-result d.result) refl

-- A node whose times and maps are read back comes back from its row, but for the order of the entries in its
-- labels, capabilities and annotations.
pub row_to_node-node_to_row :
    (f : Formats) (n : Node)
    → n.uptime_seconds < 2 ^ 64
    → IsReadBack f n.registered_at
    → IsReadBack f n.last_heartbeat
    → IsReadBackMap f n.labels
    → IsReadBackMap f n.capabilities
    → IsReadBackMap f n.annotations
    → (row : NodeRow) × (labels : HashMap String) × (capabilities : HashMap String)
      × (annotations : HashMap String) × (node_to_row f n ≡ ok row)
      × (row_to_node f row
          ≡ ok (record n {
            labels = labels;
            capabilities = capabilities;
            annotations = annotations;
          }))
      × ((k : String) → get k labels ≡ get k n.labels)
      × ((k : String) → get k capabilities ≡ get k n.capabilities)
      × ((k : String) → get k annotations ≡ get k n.annotations)
unfolding node_to_row row_to_node
row_to_node-node_to_row f n hu hr hl (t₁, m₁, w₁, r₁, s₁) (t₂, m₂, w₂, r₂, s₂)
      (t₃, m₃, w₃, r₃, s₃) =
    (
      record {
        node_id = n.node_id;
        hostname = n.hostname;
        agent_address = n.agent_address;
        labels = t₁;
        capabilities = t₂;
        state = State.display n.state;
        registered_at = f.to_rfc3339 n.registered_at;
        last_heartbeat = f.to_rfc3339 n.last_heartbeat;
        pacgate_version = n.pacgate_version;
        uptime_seconds = n.uptime_seconds;
        annotations = t₃;
      },
      m₁,
      m₂,
      m₃,
      rw (w₁, w₂, w₃) refl,
      rw (r₁, r₂, r₃, from_str-display n.state, hr, hl, fits_u64 n.uptime_seconds hu) refl,
      s₁,
      s₂,
      s₃,
    )
