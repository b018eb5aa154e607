-- ===== src/Server/Standby.antt =====
-- Which controllers act as leaders, and what one turn of the reaper reports.
use pacinet.Prelude.{
  ℕ, String, ◌≡◌, ◌≢◌, ◌⊎◌, ◌∙◌, refl, ap, inl, inr, Bool, true, false, Option, none, some, List,
  [], ◌∷◌, map, ok, arith, All, IsIn, Option-cases,
}
use mathlib.Core.Option
use pacinet.HashMap.{get}
use pacinet.HashMap.Laws.{Entries-get}
use pacinet.Model.{DateTime, Duration, Node}
use pacinet.Storage.State.{MemoryStorage, listed}
use pacinet.Storage.Logs.{prune_events, store_event}
use pacinet.Storage.Interface.{memory}
use pacinet.Storage.Nodes.{mark_stale, mark_stale_nodes, get_node}
use pacinet.Storage.Nodes.Changes.{mark_stale_nodes_lem, mark_stale_nodes_again, swept}
use pacinet.Storage.Run.Invariant.{IsValid}
use pacinet.Counters.Cache.{CounterSnapshotCache}
use pacinet.Leader.{LeaderLease, Faults}
use pacinet.Engine.Transitions.{World, evaluate_all}
use pacinet.Events.Fleet.{NodeEvent, node_id, node_to_persistent}
use pacinet.Server.{
  ControllerConfig, Args, Process, config_of, stale_threshold, begin_election, start, renew,
  require_leader,
}
use pacinet.Server.Background.{Emitted, evaluate, persist, stale_events, prune, reap}

-- Any number of turns of the election, each at its time, with its failures, and on the row that the other
-- controllers have left by then.
pub renew_all : List (Faults × DateTime × Option LeaderLease) → Process → Process
unfolding renew
renew_all [] p = p
renew_all ((f, now, row) ∷ rest) p = renew_all rest (renew f now p row).0

config-renew :
    (f : Faults) (now : DateTime) (p : Process) (row : Option LeaderLease)
    → (renew f now p row).0.config ≡ p.config
unfolding renew
config-renew f now p row = ground arith

config-renew_all :
    (ts : List (Faults × DateTime × Option LeaderLease)) (p : Process)
    → (renew_all ts p).config ≡ p.config
unfolding renew_all
config-renew_all [] p = refl
config-renew_all ((f, now, row) ∷ rest) p =
    config-renew_all rest (renew f now p row).0 ∙ config-renew f now p row

config-start :
    (args : Args) (p : Process)
    → start args ≡ ok p
    → p.config.is_leader ≡ elim args.cluster_id [ none ↦ true | some _ ↦ false ]
unfolding start begin_election config_of
config-start args p h = ground (arith, h)

persist-standby :
    (uuid payload : String) (counters : Bool) (config : ControllerConfig) (e : Emitted)
    (s : MemoryStorage)
    → config.is_leader ≡ false
    → persist uuid payload counters config e s ≡ s
unfolding persist
persist-standby uuid payload counters config (Emitted.fsm e) s h = ground (arith, h)
persist-standby uuid payload counters config (Emitted.counter e) s h = ground (arith, h)
persist-standby uuid payload counters config (Emitted.node e) s h = ground (arith, h)

reap-leader :
    (now : DateTime) (config : ControllerConfig) (days : ℕ) (cache : CounterSnapshotCache)
    (s : MemoryStorage)
    → config.is_leader ≡ true
    → let (answer, t) = mark_stale_nodes now (stale_threshold config) s in
      ((reap now config days cache s).0 ≡ stale_events now (listed answer) t)
      × ((reap now config days cache s).2 ≡ prune now days t)
unfolding reap mark_stale_nodes
reap-leader now config days cache s led = rw (led, reap) (refl, refl)

-- A controller that was started without a cluster identifier acts as the leader at all times: the guard of the
-- REST requests lets them pass, the state machines are evaluated, the event of a node is stored, and the
-- reaper prunes what the sweep leaves. One that was started with an identifier never does: after any number of
-- attempts at the lease, whatever they answer, the guard refuses the REST requests that ask it, no state machine
-- is evaluated, no event is stored, and the reaper reports nothing and leaves the storage alone.
pub start-standby :
    (args : Args) (p : Process) (ts : List (Faults × DateTime × Option LeaderLease))
    (ws : ℕ → World) (uuid payload : String) (counters : Bool) (e : Emitted) (now : DateTime)
    (days : ℕ) (cache : CounterSnapshotCache) (s : MemoryStorage)
    → start args ≡ ok p
    → let config = (renew_all ts p).config in
      ((args.cluster_id ≡ none)
        × (require_leader config ≡ ok tt)
        × (evaluate ws config s ≡ evaluate_all memory ws s)
        × ((n : NodeEvent)
            → persist uuid payload counters config (Emitted.node n) s
              ≡ (store_event (node_to_persistent uuid payload n) s).1)
        × ((reap now config days cache s).2
            ≡ prune now days (mark_stale_nodes now (stale_threshold config) s).1))
      ⊎ ((id : String) × (args.cluster_id ≡ some id)
          × (require_leader config ≢ ok tt)
          × (evaluate ws config s ≡ s)
          × (persist uuid payload counters config e s ≡ s)
          × ((reap now config days cache s).0 ≡ [])
          × ((reap now config days cache s).2 ≡ s))
unfolding require_leader evaluate reap persist
start-standby args p ts ws uuid payload counters e now days cache s h =
    let led = config-start args p h in
    let same = ap (λ c. c.is_leader) (config-renew_all ts p) ∙ led in
    elim (Option-cases args.cluster_id) [
      | inl n ↦
          let up : (renew_all ts p).config.is_leader ≡ true = ground (arith, same, n) in
          inl (
            n,
            ground (arith, up),
            ground (arith, up),
            λ event. ground (arith, up),
            (reap-leader now (renew_all ts p).config days cache s up).1,
          )
      | inr (c, n) ↦
          let down : (renew_all ts p).config.is_leader ≡ false = ground (arith, same, n) in
          inr (
            c,
            n,
            ground (arith, down),
            ground (arith, down),
            persist-standby uuid payload counters (renew_all ts p).config e s down,
            ground (arith, down),
            ground (arith, down),
          )
    ]

ids-stale_events :
    (now : DateTime) (ids : List String) (t : MemoryStorage)
    → All (λ id. (n : Node) × (get id t.nodes ≡ some n) × (n.node_id ≡ id)) ids
    → map node_id (stale_events now ids t) ≡ ids
unfolding stale_events get_node node_id
ids-stale_events now [] t h = refl
ids-stale_events now (id ∷ ids) t h =
    let (n, e, q) = h.0 in
    let rest = ids-stale_events now ids t h.1 in
    rw (e, stale_events) (ap (λ l. n.node_id ∷ l) rest ∙ ap (λ x. x ∷ ids) q)

All-intro : {A : Type 0} (P : A → Type 0) (xs : List A) → ((x : A) → IsIn x xs → P x) → All P xs
All-intro P [] h = tt
All-intro P (x ∷ xs) h = (h x (inl refl), All-intro P xs (λ y m. h y (inr m)))

-- A node that the sweep marks is still there.
swept_node :
    (now : DateTime) (d : Duration) (id : String) (s : MemoryStorage)
    → IsValid s
    → IsIn id (listed (mark_stale_nodes now d s).0)
    → (n : Node) × (get id (mark_stale_nodes now d s).1.nodes ≡ some n) × (n.node_id ≡ id)
swept_node now d id s h m =
    let (marks, left) = mark_stale_nodes_lem now d id s h in
    let (n, e, _) = marks.0 m in
    let own = Entries-get (λ k x. x.node_id ≡ k) id s.nodes h.nodes.keyed e in
    (swept now d n, left ∙ ap (Option.map (swept now d)) e, ground (arith, own))

nodes-prune : (now : DateTime) (days : ℕ) (t : MemoryStorage) → (prune now days t).nodes ≡ t.nodes
unfolding prune prune_events
nodes-prune now days t = ground arith

-- A sweep asks only for the nodes.
mark_stale_nodes-nodes :
    (now : DateTime) (d : Duration) (s t : MemoryStorage)
    → s.nodes ≡ t.nodes
    → listed (mark_stale_nodes now d s).0 ≡ listed (mark_stale_nodes now d t).0
unfolding mark_stale_nodes
mark_stale_nodes-nodes now d s t e = ap (λ m. (mark_stale now d m).0) e

-- On a valid store one turn of the reaper of a leader emits one event for each node that
-- `mark_stale_nodes` marks, in the same order, and a second turn at the same time emits none.
pub reap_lem :
    (now : DateTime) (config : ControllerConfig) (days : ℕ) (cache : CounterSnapshotCache)
    (s : MemoryStorage)
    → IsValid s
    → config.is_leader ≡ true
    → let (events, kept, t) = reap now config days cache s in
      (map node_id events ≡ listed (mark_stale_nodes now (stale_threshold config) s).0)
      × ((reap now config days kept t).0 ≡ [])
unfolding stale_events
reap_lem now config days cache s h led =
    let d = stale_threshold config in
    let (answer, t) = mark_stale_nodes now d s in
    let (_, kept, u) = reap now config days cache s in
    let (events, left) = reap-leader now config days cache s led in
    let (again, _) = reap-leader now config days kept u led in
    let none_left : listed (mark_stale_nodes now d u).0 ≡ [] =
      mark_stale_nodes-nodes now d u t (ap (λ x. x.nodes) left ∙ nodes-prune now days t)
      ∙ ap listed (mark_stale_nodes_again now d s) in
    (
      ap (map node_id) events
          ∙ ids-stale_events now (listed answer) t
              (All-intro _ (listed answer) (λ id m. swept_node now d id s h m)),
      again ∙ ap (λ ids. stale_events now ids (mark_stale_nodes now d u).1) none_left,
    )
