-- ===== src/Agent/Beats.antt =====
-- The heartbeats of an agent, and what the controller makes of them.
use pacinet.Prelude.{
  ℕ, zero, suc, ◌+◌, ◌<◌, ◌≤◌, String, ◌≡◌, ◌∙◌, inl, inr, refl, Bool, true, false, Option, some,
  List, [], ◌∷◌, ok, length, arith, eq_iff, Result-cases,
}
use pacinet.HashMap.{get}
use pacinet.Error.{PaciNetError}
use pacinet.Model.{DateTime, Node}
use pacinet.Model.State.{active, from_proto}
use pacinet.Storage.State.{MemoryStorage}
use pacinet.Deploy.Options.{CompileOptions}
use pacinet.Service.Agents.{
  ControllerService, HeartbeatRequest, heartbeat, reported_state, proto_of_number,
}
use pacinet.Service.Agents.Laws.{heartbeat_lem}
use pacinet.Agent.{
  AgentState, Tools, Link, compile, deploy_rules, options_or_default, get_status, heartbeat_request,
  uptime_of, beat, beat_from,
}

module _ (link : Link) (request : HeartbeatRequest) where
  -- An attempt that could succeed is made unless one before it has succeeded.
  tried :
      (attempt : ℕ) (delays : List ℕ) (connected : Bool) (k i : ℕ)
      → k < length delays
      → attempt + k ≡ i
      → link.connects i ≡ true
      → link.answers i request ≡ true
      → (beat_from link request attempt delays connected).succeeded ≡ true
  unfolding beat_from
  tried attempt [] connected k i h e c a = absurd (omega (arith, h))
  tried attempt (d ∷ rest) connected zero i h e c a =
      let now : attempt ≡ i = omega (arith, e) in rw (now, c, a) (ground arith)
  tried attempt (d ∷ rest) connected (suc k) i h e c a =
      let later = tried (suc attempt) rest false k i (omega (arith, h)) (omega (arith, e)) c a in
      ground (arith, later)

  kept :
      (attempt : ℕ) (delays : List ℕ)
      → let b = beat_from link request attempt delays false in b.succeeded ≡ b.connected
  unfolding beat_from
  kept attempt [] = refl
  kept attempt (d ∷ rest) = ground (arith, kept (suc attempt) rest)

  few :
      (attempt : ℕ) (delays : List ℕ) (connected : Bool)
      → length (beat_from link request attempt delays connected).sent ≤ length delays
  unfolding beat_from
  few attempt [] connected = omega arith
  few attempt (d ∷ rest) connected = let ih = few (suc attempt) rest false in ground (arith, ih)

-- A turn of the heartbeat loop sends at most three requests. It succeeds if there is one of its three attempts
-- at which the controller could be reached and would answer; one that began without a client keeps a client
-- exactly if it succeeds.
pub beat_lem :
    (link : Link) (request : HeartbeatRequest) (connected : Bool) (i : ℕ)
    → let b = beat link request connected in
      (i < 3 → link.connects i ≡ true → link.answers i request ≡ true → b.succeeded ≡ true)
      × (connected ≡ false → b.succeeded ≡ b.connected)
      × (length b.sent ≤ 3)
unfolding beat
beat_lem link request connected i = (
  λ h c a. tried link request 0 (500 ∷ 1000 ∷ 2000 ∷ []) connected i i h (omega arith) c a,
  λ e. rw e (kept link request 0 (500 ∷ 1000 ∷ 2000 ∷ [])),
  few link request 0 (500 ∷ 1000 ∷ 2000 ∷ []) connected,
)

abbrev running : Tools → DateTime → String → AgentState → AgentState
running tools now rules_yaml a = record a {
  active_policy_hash = some (tools.policy_hash rules_yaml);
  active_rules_yaml = some rules_yaml;
  deployed_at = some now;
}

deployed :
    (tools : Tools) (now : DateTime) (rules_yaml : String) (options : Option CompileOptions)
    (a : AgentState)
    → let (response, after) = deploy_rules tools now rules_yaml options a in
      response.success ≡ true → after ≡ running tools now rules_yaml a
unfolding deploy_rules
deployed tools now rules_yaml options a =
    elim (Result-cases (compile tools a.pacgate rules_yaml (options_or_default options))) [
      | inr (e, c) ↦ rw (c, deploy_rules) (λ h. ground (arith, h))
      | inl (result, c) ↦ rw (c, deploy_rules) (λ h. rw h refl)
    ]

-- After rules that the compiler accepts, the next heartbeat that the controller receives of the registered node
-- makes the node Active with the agent's uptime, whatever its state was, and the agent's status gives the hash of
-- these rules.
pub deploy_rules-heartbeat :
    (tools : Tools) (now later : DateTime) (rules_yaml : String) (options : Option CompileOptions)
    (a : AgentState) (error_text : PaciNetError → String) (service : ControllerService)
    (s : MemoryStorage) (node : Node)
    → let (response, after) = deploy_rules tools now rules_yaml options a in
      let r = heartbeat error_text later service (heartbeat_request later after) s in
      response.success ≡ true
      → get a.node_id s.nodes ≡ some node
      → (r.0.0 ≡ ok tt)
        × (get a.node_id r.1.nodes
            ≡ some (record node {
              last_heartbeat = later;
              state = active;
              uptime_seconds = uptime_of later a;
            }))
        × ((get_status later after).active_policy_hash ≡ tools.policy_hash rules_yaml)
unfolding get_status reported_state proto_of_number from_proto
deploy_rules-heartbeat tools now later rules_yaml options a error_text service s node h g =
    let after = running tools now rules_yaml a in
    rw (deployed tools now rules_yaml options a h)
      (elim (heartbeat_lem error_text later service (heartbeat_request later after) a.node_id s) [
        | inl (n, found, acknowledged, _, _, stored) ↦
            (acknowledged, stored ∙ ground (arith, eq_iff a.node_id a.node_id, found, g), refl)
        | inr (missing, _) ↦ ground (arith, missing, g)
      ])
