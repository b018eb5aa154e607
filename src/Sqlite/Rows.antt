-- ===== src/Sqlite/Rows.antt =====
-- The rows of the tables as pacinet-server/src/storage/sqlite.rs writes and reads them: texts and integers. An
-- integer column is kept by its 64 bits, and a value of a narrower type is extended to them; a column that holds
-- another type than its declared one is left out. `chrono` writes and reads the times, `serde_json` the maps.
pub mod Columns
pub mod Laws
use pacinet.Prelude.{
  ℕ, ◌%◌, ◌^◌, String, [], Bool, true, false, not, eqb, Result, ok, err, if◌then◌else◌,
}
use pacinet.HashMap.{HashMap}
use pacinet.Error.{PaciNetError, internal}
use pacinet.Model.{DateTime, Node, Policy, PolicyVersion, DeploymentRecord}
use pacinet.Model.State
use pacinet.Model.Deployment
use pacinet.Storage.State.{Answer}

-- What the two libraries do, errors as texts.
pub record Formats : Type 0 where
  pub to_rfc3339 : DateTime → String
  pub parse_from_rfc3339 : String → Result DateTime String
  pub to_json : HashMap String → Result String String
  pub from_json : String → Result (HashMap String) String

-- `map_err(|e| PaciNetError::Internal(e.to_string()))?`
abbrev pub or_internal : {A : Type 0} → Result A String → Answer A
or_internal (ok a) = ok a
or_internal (err e) = err (internal e)

-- `unwrap_or_default`
abbrev pub or_no_entries : Result (HashMap String) String → HashMap String
or_no_entries (ok m) = m
or_no_entries (err _) = []

-- `b as i32`
abbrev pub of_bool : Bool → ℕ
of_bool true = 1
of_bool false = 0

-- `column != 0`
abbrev pub to_bool : ℕ → Bool
to_bool column = not (eqb column 0)

-- `column as u32`
unfoldable pub to_u32 : ℕ → ℕ
to_u32 column = column % 2 ^ 32

-- `column as u64`
unfoldable pub to_u64 : ℕ → ℕ
to_u64 column = column % 2 ^ 64

pub record NodeRow : Type 0 where
  pub node_id : String
  pub hostname : String
  pub agent_address : String
  pub labels : String
  pub capabilities : String
  pub state : String
  pub registered_at : String
  pub last_heartbeat : String
  pub pacgate_version : String
  pub uptime_seconds : ℕ
  pub annotations : String

pub record PolicyRow : Type 0 where
  pub node_id : String
  pub rules_yaml : String
  pub policy_hash : String
  pub deployed_at : String
  pub counters_enabled : ℕ
  pub rate_limit_enabled : ℕ
  pub conntrack_enabled : ℕ
  pub axi_enabled : ℕ
  pub ports : ℕ
  pub target : String
  pub dynamic : ℕ
  pub dynamic_entries : ℕ
  pub width : ℕ
  pub ptp : ℕ
  pub rss : ℕ
  pub rss_queues : ℕ
  pub int : ℕ
  pub int_switch_id : ℕ

-- A row of `policy_versions` but for its own number, which nothing reads.
pub record PolicyVersionRow : Type 0 where
  pub version : ℕ
  pub node_id : String
  pub rules_yaml : String
  pub policy_hash : String
  pub deployed_at : String
  pub counters_enabled : ℕ
  pub rate_limit_enabled : ℕ
  pub conntrack_enabled : ℕ
  pub axi_enabled : ℕ
  pub ports : ℕ
  pub target : String
  pub dynamic : ℕ
  pub dynamic_entries : ℕ
  pub width : ℕ
  pub ptp : ℕ
  pub rss : ℕ
  pub rss_queues : ℕ
  pub int : ℕ
  pub int_switch_id : ℕ

pub record DeploymentRow : Type 0 where
  pub id : String
  pub node_id : String
  pub policy_version : ℕ
  pub policy_hash : String
  pub deployed_at : String
  pub result : String
  pub message : String
