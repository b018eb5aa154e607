-- ===== src/Server.antt =====
-- The controller process: the configuration of pacinet-server/src/config.rs, and of
-- pacinet-server/src/main.rs the checks of the arguments, the start of the leader election and the
-- background tasks. The address, the TLS files and the servers themselves are left out.
pub mod Background
pub mod Standby
use pacinet.Prelude.{
  ℕ, ◌*◌, ◌/◌, ◌%◌, ◌^◌, String, Bool, true, false, not, ◌&&◌, Option, none, some, Result, ok, err,
  is_some, if◌then◌else◌,
}
use pacinet.Model.{DateTime, Duration, nanos_per_second}
use pacinet.Leader.{LeaderLease, Faults, LeaderElection, try_acquire}
use pacinet.Leader

pub record ControllerConfig : Type 0 where
  pub deploy_timeout : Duration
  pub heartbeat_expect_interval : Duration
  pub heartbeat_miss_threshold : ℕ
  pub counter_snapshot_retention : Duration
  pub counter_snapshot_max_per_node : ℕ
  pub is_leader : Bool

-- `ControllerConfig::default()`
abbrev pub default_config : ControllerConfig
default_config = record {
  deploy_timeout = 30 * nanos_per_second;
  heartbeat_expect_interval = 30 * nanos_per_second;
  heartbeat_miss_threshold = 3;
  counter_snapshot_retention = 3600 * nanos_per_second;
  counter_snapshot_max_per_node = 120;
  is_leader = true;
}

-- The whole seconds of the interval, times the threshold, in a `u64` that wraps around.
unfoldable pub stale_threshold : ControllerConfig → Duration
stale_threshold c =
    ((c.heartbeat_expect_interval / nanos_per_second) * c.heartbeat_miss_threshold)
    % 2 ^ 64
    * nanos_per_second

-- The arguments that the modelled part of `main` reads.
pub record Args : Type 0 where
  pub db : Option String
  pub ca_cert : Option String
  pub tls_cert : Option String
  pub tls_key : Option String
  pub cluster_id : Option String
  pub lease_duration : ℕ
  pub deploy_timeout : ℕ
  pub heartbeat_expect_interval : ℕ
  pub heartbeat_miss_threshold : ℕ
  pub counter_retention_secs : ℕ
  pub counter_max_per_node : ℕ
  pub persist_counter_events : Bool
  pub event_max_age_days : ℕ

-- Either all of the three files or none: whether TLS is on.
unfoldable pub tls_config : Args → Result Bool String
tls_config args =
    let ca = is_some args.ca_cert in
    let cert = is_some args.tls_cert in
    let key = is_some args.tls_key in
    if ca && cert && key
    then ok true
    else if not ca && not cert && not key
    then ok false
    else err "TLS requires all three: --ca-cert, --tls-cert, --tls-key"

unfoldable pub config_of : Args → ControllerConfig
config_of args = record default_config {
  deploy_timeout = args.deploy_timeout * nanos_per_second;
  heartbeat_expect_interval = args.heartbeat_expect_interval * nanos_per_second;
  heartbeat_miss_threshold = args.heartbeat_miss_threshold;
  counter_snapshot_retention = args.counter_retention_secs * nanos_per_second;
  counter_snapshot_max_per_node = args.counter_max_per_node;
}

-- The process as far as the leadership goes: the configuration that its tasks read, and the election that
-- runs with a cluster identifier.
pub record Process : Type 0 where
  pub config : ControllerConfig
  pub election : Option LeaderElection
  pub has_tls : Bool

-- With a cluster identifier `main` stores `false` into the flag of the configuration, and hands the
-- election its own flag.
unfoldable pub begin_election : Args → Bool → ControllerConfig → Process
begin_election args has_tls config = elim args.cluster_id [
  | none ↦ record { config = config; election = none; has_tls = has_tls }
  | some cluster_id ↦ record {
    config = record config { is_leader = false };
    election = some (Leader.new cluster_id (args.lease_duration * nanos_per_second));
    has_tls = has_tls;
  }
]

unfoldable pub start : Args → Result Process String
unfolding tls_config config_of begin_election
start args =
    if is_some args.cluster_id && not (is_some args.db)
    then err "--cluster-id requires --db (SQLite) for shared lease storage"
    else elim (tls_config args) [
      | err e ↦ err e
      | ok has_tls ↦ ok (begin_election args has_tls (config_of args))
    ]

-- One turn of the loop of the election, if there is one.
unfoldable pub renew :
    Faults → DateTime → Process → Option LeaderLease → Process × Option LeaderLease
renew f now p row = elim p.election [
  | none ↦ (p, row)
  | some e ↦
      let ((_, e'), left) = try_acquire f now e row in (record p { election = some e' }, left)
]

-- `require_leader` of pacinet-server/src/rest.rs, which the handlers that write begin with: the refusal
-- is SERVICE_UNAVAILABLE with this text.
unfoldable pub require_leader : ControllerConfig → Result (Unit {0}) String
require_leader config =
    if not config.is_leader
    then err "This controller is in standby mode. Write operations must go to the leader."
    else ok tt
