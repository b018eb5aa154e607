-- ===== src/Engine/Conditions.antt =====
-- The conditions of transitions: `evaluate_condition` and what it calls.
use mathlib.Core.List.{List}
use pacinet.Prelude.{
  ℕ, ◌+◌, ◌%◌, String, ◌==◌, Bool, true, false, not, ◌&&◌, ◌||◌, Option, none, some, [], ◌∷◌, ok,
  err, ltb, eqb, any, all, is_some, if◌then◌else◌,
}
use pacinet.Text.{show_ℕ, ◌<>◌}
use pacinet.HashMap.{HashMap, get, insert, remove}
use pacinet.Model.{DateTime, Duration}
use pacinet.Fsm.Duration.{parse_duration}
use pacinet.Fsm.Definition.{
  F64, ConditionDefinition, Conditions, CounterCondition, SimpleCondition, counter, simple,
  compound, nil, cons, absent, present, missing, given,
}
use pacinet.Fsm.Instance.{FsmInstance}
use pacinet.Counters.Cache.{CounterSnapshotCache, latest, latest_pair, node_ids}
use pacinet.Counters.Rate.{
  Floats, AggregateMode, any_node, all_nodes, sum_nodes, parse_aggregate_mode, get_counter_total,
  calculate_rate,
}

-- What an evaluation reads: the clock, the counter cache, the arithmetic of `f64`, and
-- `chrono::Duration::from_std(d).unwrap_or(MAX)` at a number of seconds.
pub record Evaluation : Type 0 where
  pub now : DateTime
  pub cache : CounterSnapshotCache
  pub floats : Floats
  pub from_std : ℕ → Duration

abbrev pub is_some_true : Option Bool → Bool
is_some_true none = false
is_some_true (some b) = b

abbrev is_empty : List String → Bool
is_empty [] = true
is_empty (x ∷ xs) = false

abbrev is_empty_rates : List F64 → Bool
is_empty_rates [] = true
is_empty_rates (x ∷ xs) = false

unfoldable pub evaluate_simple : SimpleCondition → FsmInstance → Bool
evaluate_simple s i =
    if is_some_true s.all_succeeded
    then elim i.context.last_action_result [
      | none ↦ false
      | some r ↦ eqb r.failed 0 && ltb 0 r.succeeded
    ]
    else if is_some_true s.any_failed
    then elim i.context.last_action_result [ none ↦ false | some r ↦ ltb 0 r.failed ]
    else false

-- The counter of a node that is compared: the bytes or the matches of its latest snapshot.
unfoldable pub node_total : Evaluation → String → Bool → String → Option ℕ
node_total e rule_name use_bytes node_id = elim (latest node_id e.cache) [
  | none ↦ none
  | some s ↦ elim (get_counter_total s rule_name) [
    | none ↦ none
    | some (m, b) ↦ some (if use_bytes then b else m)
  ]
]

unfoldable pub is_above : ℕ → Option ℕ → Bool
is_above threshold none = false
is_above threshold (some value) = ltb threshold value

-- `filter_map(…).sum()` of `u64`, which wraps in a release build.
unfoldable pub sum_totals : Evaluation → String → Bool → List String → ℕ
unfolding node_total
sum_totals e rule_name use_bytes [] = 0
sum_totals e rule_name use_bytes (n ∷ ns) =
    let rest = sum_totals e rule_name use_bytes ns in
    elim (node_total e rule_name use_bytes n) [
      | none ↦ rest
      | some v ↦ (v + rest) % 18446744073709551616
    ]

unfoldable pub check_total_above :
    Evaluation → String → ℕ → Bool → List String → AggregateMode → Bool
unfolding node_total is_above sum_totals
check_total_above e rule_name threshold use_bytes nodes any_node =
    any (λ n. is_above threshold (node_total e rule_name use_bytes n)) nodes
check_total_above e rule_name threshold use_bytes nodes all_nodes =
    all (λ n. is_above threshold (node_total e rule_name use_bytes n)) nodes
check_total_above e rule_name threshold use_bytes nodes sum_nodes =
    ltb threshold (sum_totals e rule_name use_bytes nodes)

unfoldable pub node_rate : Evaluation → String → Bool → String → Option F64
node_rate e rule_name use_bytes node_id = elim (latest_pair node_id e.cache) [
  | none ↦ none
  | some (older, newer) ↦ elim (calculate_rate e.floats older newer rule_name) [
    | none ↦ none
    | some r ↦ some (if use_bytes then r.bytes_per_second else r.matches_per_second)
  ]
]

unfoldable pub node_rates : Evaluation → String → Bool → List String → List F64
unfolding node_rate
node_rates e rule_name use_bytes [] = []
node_rates e rule_name use_bytes (n ∷ ns) =
    let rest = node_rates e rule_name use_bytes ns in
    elim (node_rate e rule_name use_bytes n) [ none ↦ rest | some r ↦ r ∷ rest ]

unfoldable pub rate_matches : Floats → F64 → Option F64 → Option F64 → Bool
rate_matches fl rate above below =
    elim above [ none ↦ true | some threshold ↦ not (fl.is_at_most rate threshold) ]
    && elim below [ none ↦ true | some threshold ↦ not (fl.is_at_most threshold rate) ]

unfoldable pub check_rate_threshold :
    Evaluation → String → Option F64 → Option F64 → Bool → List String → AggregateMode → Bool
unfolding node_rates rate_matches
check_rate_threshold e rule_name above below use_bytes nodes mode =
    let rates = node_rates e rule_name use_bytes nodes in
    if is_empty_rates rates then false else elim mode [
      | any_node ↦ any (λ r. rate_matches e.floats r above below) rates
      | all_nodes ↦ all (λ r. rate_matches e.floats r above below) rates
      | sum_nodes ↦ rate_matches e.floats (e.floats.sum rates) above below
    ]

unfoldable pub condition_key : String → ℕ → String
condition_key current_state transition_idx = current_state <> ":" <> show_ℕ transition_idx

-- The instance with another map of the times since which conditions hold.
abbrev pub with_times : FsmInstance → HashMap DateTime → FsmInstance
with_times i times = record i {
  context = record i.context { counter_condition_first_true = times };
}

unfoldable pub nodes_to_check : Evaluation → FsmInstance → List String
nodes_to_check e i =
    if is_empty i.context.target_nodes
    then if is_empty i.context.deployed_nodes then node_ids e.cache else i.context.deployed_nodes
    else i.context.target_nodes

-- `c.total_above` and the rates, where they are set.
unfoldable pub thresholds_met : Evaluation → CounterCondition → List String → Bool
unfolding check_total_above check_rate_threshold
thresholds_met e c nodes =
    let mode : AggregateMode = elim c.aggregate [
      | none ↦ any_node
      | some s ↦ parse_aggregate_mode s
    ] in
    let use_bytes : Bool = elim c.field [ none ↦ false | some f ↦ f == "bytes" ] in
    elim c.total_above [
      | none ↦ true
      | some threshold ↦ check_total_above e c.counter threshold use_bytes nodes mode
    ]
    && (if is_some c.rate_above || is_some c.rate_below
        then check_rate_threshold e c.counter c.rate_above c.rate_below use_bytes nodes mode
        else true)

-- The part that needs the condition to have held for a time: the time since when it holds is put
-- down at the first evaluation at which it does.
unfoldable pub sustained : Evaluation → String → Option String → FsmInstance → Bool × FsmInstance
sustained e key none i = (true, i)
sustained e key (some text) i = elim (parse_duration text) [
  | err _ ↦ (false, i)
  | ok seconds ↦
      let times = i.context.counter_condition_first_true in
      elim (get key times) [
        | none ↦
            (not (ltb e.now (e.now + e.from_std seconds)), with_times i (insert key e.now times))
        | some first ↦ (not (ltb e.now (first + e.from_std seconds)), i)
      ]
]

unfoldable pub evaluate_counter_condition :
    Evaluation → CounterCondition → String → ℕ → FsmInstance → Bool × FsmInstance
unfolding condition_key nodes_to_check thresholds_met sustained
evaluate_counter_condition e c current_state transition_idx i =
    let key = condition_key current_state transition_idx in
    let nodes = nodes_to_check e i in
    if is_empty nodes
    then (false, i)
    else if thresholds_met e c nodes
    then sustained e key c.for_duration i
    else (false, with_times i (remove key i.context.counter_condition_first_true))

unfoldable mutual
  unfolding evaluate_simple evaluate_counter_condition

  pub evaluate_condition :
      Evaluation → ConditionDefinition → String → ℕ → FsmInstance → Bool × FsmInstance
  evaluate_condition e (simple s) state idx i = (evaluate_simple s i, i)
  evaluate_condition e (counter c) state idx i = evaluate_counter_condition e c state idx i
  evaluate_condition e (compound (present cs) one_of negated) state idx i =
      evaluate_all e cs state idx i
  evaluate_condition e (compound absent (present cs) negated) state idx i =
      evaluate_any e cs state idx i
  evaluate_condition e (compound absent absent (given c)) state idx i =
      let (b, j) = evaluate_condition e c state idx i in (not b, j)
  evaluate_condition e (compound absent absent missing) state idx i = (false, i)

  -- `iter().all` and `iter().any` stop at the first condition that decides.
  pub evaluate_all : Evaluation → Conditions → String → ℕ → FsmInstance → Bool × FsmInstance
  evaluate_all e nil state idx i = (true, i)
  evaluate_all e (cons c cs) state idx i =
      let (b, j) = evaluate_condition e c state idx i in
      let rest = evaluate_all e cs state idx j in if b then rest else (false, j)

  pub evaluate_any : Evaluation → Conditions → String → ℕ → FsmInstance → Bool × FsmInstance
  evaluate_any e nil state idx i = (false, i)
  evaluate_any e (cons c cs) state idx i =
      let (b, j) = evaluate_condition e c state idx i in
      let rest = evaluate_any e cs state idx j in if b then (true, j) else rest
