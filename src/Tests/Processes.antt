-- ===== src/Tests/Processes.antt =====
-- The theorems about the lease, the events, the background tasks and the webhooks at concrete inputs.
use pacinet.Prelude.{
  ℕ, suc, ◌+◌, ◌-◌, ◌*◌, ◌≤◌, ◌<◌, String, ◌==◌, ◌≡◌, ◌≢◌, ◌↔◌, ◌⊎◌, IsIn, inl, refl, Bool, true,
  false, Option, none, some, List, [], ◌∷◌, map, ok, arith, length, keep, eqb, All, OptionAll,
  if◌then◌else◌,
}
use pacinet.HashMap.{HashMap, get, insert}
use pacinet.Model.{DateTime, nanos_per_second}
use pacinet.Fsm.Definition.{WebhookConfig}
use pacinet.Storage.State.{MemoryStorage, listed}
use pacinet.Storage.Interface.{memory}
use pacinet.Storage.Logs.{store_event}
use pacinet.Storage.Nodes.{mark_stale_nodes}
use pacinet.Storage.Run.Preserves.{run-IsValid}
use pacinet.Counters.Cache.{CounterSnapshotCache}
use pacinet.Engine.Transitions.{World, evaluate_all}
use pacinet.Events.Machine.{FsmEvent, instance_completed, instance_id}
use pacinet.Events.Fleet.{node_to_persistent, labels, CounterEvent, NodeEvent, removed, node_id}
use pacinet.Events.Watch.{
  Received, event, lagged, closed, received, watch_fsm_events, watch_counters, watch_node_events,
  watch_lem,
}
use pacinet.Leader.{
  LeaderLease, Faults, LeaderElection, lease_of, try_acquire_lease, get_leader, try_acquire, swap,
  decide, committed, checked, is_granted,
}
use pacinet.Leader
use pacinet.Leader.Attempts.{
  sound, IsFreeFor, IsHeldBy, Attempt, attempt_all, try_acquire_lease_iff, attempt_all-exclusive,
}
use pacinet.Leader.Cluster.{
  Cluster, attempted, told, Reach, initial, start as none_yet, later, join, attempt,
  Reach-one_leader,
}
use pacinet.Server.{
  Args, ControllerConfig, Process, default_config, tls_config, stale_threshold, require_leader,
}
use pacinet.Server
use pacinet.Server.Background.{prune, Emitted, evaluate, persist, reap}
use pacinet.Server.Standby.{renew_all, start-standby, reap_lem}
use pacinet.Webhook.{
  WebhookPayload, Client, responded, success, exhausted, unwrap_or, deliver_webhook,
}
use pacinet.Webhook.Laws.{IsSequence, doubling, deliver_webhook_lem, deliver_webhook-delays}
use pacinet.Tests.Data.{calls, fleet, world, b_is_not_a}
use pacinet.Tests.Data

abbrev in_cluster : Args
in_cluster = record {
  db = some "pacinet.db";
  ca_cert = none;
  tls_cert = none;
  tls_key = none;
  cluster_id = some "c1";
  lease_duration = 30;
  deploy_timeout = 30;
  heartbeat_expect_interval = 30;
  heartbeat_miss_threshold = 3;
  counter_retention_secs = 3600;
  counter_max_per_node = 120;
  persist_counter_events = false;
  event_max_age_days = 7;
}

abbrev standby : Process
standby = record {
  config = record default_config { is_leader = false };
  election = some (Leader.new "c1" (30 * nanos_per_second));
  has_tls = false;
}

abbrev webhook : WebhookConfig
webhook = record {
  url = "http://x";
  method = none;
  bearer_token = none;
  basic_auth = none;
  timeout_seconds = none;
  max_retries = none;
  headers = [];
}

abbrev payload : WebhookPayload
payload = record {
  event = "fsm_alert";
  instance_id = "i";
  definition_name = "canary";
  current_state = "start";
  message = "m";
  timestamp = 9;
  deployed_nodes = [];
}

-- A server that answers 503 twice, and then 200.
abbrev client : Client
client = record {
  build_error = λ seconds. none;
  send = λ attempt request. if eqb attempt 2 then responded 200 else responded 503;
  duration_ms = λ attempt. 5;
  status_text = λ status. "503 Service Unavailable";
  uuid = λ attempt. "u";
  now = λ attempt. 9;
}

try_acquire_lease_iff_example :
    let now : DateTime = 7 in
    let id : String = "a" in
    let secs : ℕ = 30 in
    let row : Option LeaderLease = some (lease_of 1 "b" 30) in
    let (answer, left) = try_acquire_lease sound now id secs row in
    ((answer ≡ ok true) ↔ OptionAll (IsFreeFor now id) row)
    × (((answer ≡ ok true)
          × (left ≡ some (lease_of now id secs))
          × (get_leader sound left ≡ ok (some (id, now + secs * nanos_per_second))))
        ⊎ ((answer ≡ ok false) × (left ≡ row)))
try_acquire_lease_iff_example = try_acquire_lease_iff 7 "a" 30 (some (lease_of 1 "b" 30))

attempt_all-exclusive_example :
    let id : String = "a" in
    let until : DateTime = 30000000001 in
    let attempts : List Attempt =
      (record { id = "b"; duration_secs = 30; now = 5; faults = sound }) ∷ [] in
    let row : Option LeaderLease = some (lease_of 1 "a" 30) in
    IsHeldBy id until (attempt_all attempts row).1
    × All (λ a. a.id ≡ id) (attempt_all attempts row).0
unfolding lease_of
attempt_all-exclusive_example =
    attempt_all-exclusive "a" 30000000001
      ((record { id = "b"; duration_secs = 30; now = 5; faults = sound }) ∷ [])
      (some (lease_of 1 "a" 30)) ((omega arith, inl b_is_not_a), tt) (refl, omega arith)

watch_lem_example :
    let id : String = "i" in
    let label_filter : HashMap String = ("env", "prod") ∷ [] in
    let fs : List (Received FsmEvent) =
      event (instance_completed "i" "canary" "completed" 9) ∷ closed ∷ [] in
    let cs : List (Received CounterEvent) = lagged 2 ∷ [] in
    let ns : List (Received NodeEvent) = event (removed "a" "a" [] 9) ∷ [] in
    (watch_fsm_events id fs
      ≡ (if id == "" then received fs else keep (λ e. instance_id e == id) (received fs)))
    × (watch_counters id cs
        ≡ (if id == "" then received cs else keep (λ e. e.node_id == id) (received cs)))
    × ((has : NodeEvent → Bool) × ((e : NodeEvent)
          → (has e ≡ true)
            ↔ ((k v : String) → IsIn (k, v) label_filter → get k (labels e) ≡ some v))
        × (watch_node_events label_filter ns ≡ keep has (received ns)))
watch_lem_example =
    watch_lem "i" (("env", "prod") ∷ [])
      (event (instance_completed "i" "canary" "completed" 9) ∷ closed ∷ []) (lagged 2 ∷ [])
      (event (removed "a" "a" [] 9) ∷ [])

start-standby_example :
    let args : Args = in_cluster in
    let p : Process = standby in
    let ts : List (Faults × DateTime × Option LeaderLease) = (sound, 5, none) ∷ [] in
    let ws : ℕ → World = λ n. world in
    let uuid : String = "u" in
    let payload : String = "{}" in
    let counters : Bool = true in
    let e : Emitted = Emitted.node (removed "a" "a" [] 9) in
    let now : DateTime = 9 in
    let days : ℕ = 7 in
    let cache : CounterSnapshotCache = Data.cache in
    let s : MemoryStorage = fleet in
    let config = (renew_all ts p).config in
    ((args.cluster_id ≡ none)
      × (require_leader config ≡ ok tt)
      × (evaluate ws config s ≡ evaluate_all memory ws s)
      × ((n : NodeEvent)
          → persist uuid payload counters config (Emitted.node n) s
            ≡ (store_event (node_to_persistent uuid payload n) s).1)
      × ((reap now config days cache s).2
          ≡ prune now days (mark_stale_nodes now (stale_threshold config) s).1))
    ⊎ ((id : String) × (args.cluster_id ≡ some id)
        × (require_leader config ≢ ok tt)
        × (evaluate ws config s ≡ s)
        × (persist uuid payload counters config e s ≡ s)
        × ((reap now config days cache s).0 ≡ [])
        × ((reap now config days cache s).2 ≡ s))
unfolding Server.start tls_config
start-standby_example =
    start-standby in_cluster standby ((sound, 5, none) ∷ []) (λ n. world) "u" ("{}") true
      (Emitted.node (removed "a" "a" [] 9)) 9 7 Data.cache fleet refl

reap_lem_example :
    let now : DateTime = 100000000000000 in
    let config : ControllerConfig = default_config in
    let days : ℕ = 7 in
    let cache : CounterSnapshotCache = Data.cache in
    let s : MemoryStorage = fleet in
    let (events, kept, t) = reap now config days cache s in
    (map node_id events ≡ listed (mark_stale_nodes now (stale_threshold config) s).0)
    × ((reap now config days kept t).0 ≡ [])
reap_lem_example =
    reap_lem 100000000000000 default_config 7 Data.cache fleet (run-IsValid calls) refl

deliver_webhook_lem_example :
    let c : Client = client in
    let config : WebhookConfig = webhook in
    let payload : WebhookPayload = payload in
    let instance_id : String = "i" in
    let r = deliver_webhook c config payload instance_id in
    let n = suc (unwrap_or config.max_retries 2) in
    IsSequence r.result 0 r.deliveries
    × (((r.result ≡ success) × (length r.deliveries ≤ n))
        ⊎ ((r.result ≡ exhausted) × (length r.deliveries ≡ n)))
deliver_webhook_lem_example = deliver_webhook_lem client webhook payload "i" refl

deliver_webhook-delays_example :
    let c : Client = client in
    let config : WebhookConfig = webhook in
    let payload : WebhookPayload = payload in
    let instance_id : String = "i" in
    let r = deliver_webhook c config payload instance_id in
    r.delays ≡ doubling 500 (length r.deliveries - 1)
deliver_webhook-delays_example =
    deliver_webhook-delays client webhook payload "i" refl (omega arith)

abbrev half_minute : ℕ
half_minute = 30 * nanos_per_second

-- `a` comes up and gets the lease; `b` comes up, and takes it over when it has expired.
abbrev one_up : Cluster
one_up = record initial { elections = insert "a" (Leader.new "a" half_minute) initial.elections }

abbrev one_leads : Cluster
one_leads = attempted sound 5 (Leader.new "a" half_minute) one_up

abbrev two_up : Cluster
two_up = record one_leads {
  elections = insert "b" (Leader.new "b" half_minute) one_leads.elections;
}

abbrev taken_over : Cluster
taken_over = attempted sound 40000000000 (Leader.new "b" half_minute) two_up

reach : Reach taken_over
unfolding insert get attempted told try_acquire Leader.new swap try_acquire_lease lease_of decide
    committed checked is_granted
reach =
    later
      (later
        (later (later none_yet (join "a" half_minute)) (attempt sound 5 "a" _ refl (omega arith)))
        (join "b" half_minute))
      (attempt sound 40000000000 "b" _ refl (omega arith))

Reach-one_leader_example :
    (t u : DateTime) × (get "a" taken_over.granted ≡ some t)
    × (get "b" taken_over.granted ≡ some u)
    × ((◌≡◌ {A = String} "a" "b") ⊎ (t < taken_over.clock) ⊎ (u < taken_over.clock))
unfolding insert get attempted told try_acquire Leader.new swap try_acquire_lease lease_of decide
    committed checked is_granted
Reach-one_leader_example =
    Reach-one_leader "a" "b" (record (Leader.new "a" half_minute) { is_leader = true })
      (record (Leader.new "b" half_minute) { is_leader = true }) reach refl refl refl refl
