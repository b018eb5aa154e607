-- ===== src/Fsm/Validate.antt =====
-- `FsmDefinition::validate` and `validate_condition` of pacinet-core/src/fsm/definition.rs.
pub mod Clauses
pub mod Spec
use pacinet.Prelude.{
  ℕ, zero, suc, String, ◌==◌, Bool, true, false, not, ◌&&◌, ◌||◌, Option, none, some, List, [], ◌∷◌,
  any, Result, ok, err, ◌>>=◌, ◌>>◌, is_some, if◌then◌else◌,
}
use pacinet.Text.{show_ℕ, ◌<>◌}
use pacinet.HashMap.{HashMap, contains_key, values}
use pacinet.Error.{FsmError, invalid_definition}
use pacinet.Fsm.Duration.{parse_duration}
use pacinet.Fsm.Definition.{
  FsmDefinition, StateDefinition, TransitionDefinition, ConditionDefinition, Conditions,
  MaybeConditions, MaybeCondition, CounterCondition, counter, simple, compound, nil, cons, absent,
  present, missing, given,
}

abbrev pub Check : Type 0
Check = Result (Unit {0}) FsmError

abbrev pub pass : Check
pass = ok tt

-- `state '…' transition …`, with which the messages about a condition begin.
abbrev where_at : String → ℕ → String
where_at state_name idx = "state '" <> state_name <> "' transition " <> show_ℕ idx

check_thresholds : CounterCondition → String → ℕ → Check
check_thresholds cc state_name idx =
    if not (is_some cc.rate_above) && not (is_some cc.rate_below) && not (is_some cc.total_above)
    then err (
        invalid_definition (
          where_at state_name idx
          <> " counter condition must set at least one of rate_above, rate_below, total_above"))
    else pass

check_aggregate : Option String → String → ℕ → Check
check_aggregate none state_name idx = pass
check_aggregate (some agg) state_name idx =
    if agg == "any" || agg == "all" || agg == "sum"
    then pass
    else err (
        invalid_definition
          (where_at state_name idx <> " invalid aggregate mode '" <> agg <> "' (use any/all/sum)"))

check_field : Option String → String → ℕ → Check
check_field none state_name idx = pass
check_field (some field) state_name idx =
    if field == "matches" || field == "bytes"
    then pass
    else err (
        invalid_definition
          (where_at state_name idx <> " invalid field '" <> field <> "' (use matches/bytes)"))

check_for_duration : Option String → String → ℕ → Check
check_for_duration none state_name idx = pass
check_for_duration (some dur) state_name idx = elim (parse_duration dur) [
  | ok _ ↦ pass
  | err e ↦ err (
      invalid_definition
        (where_at state_name idx <> " invalid for_duration '" <> dur <> "': " <> e))
]

validate_counter : CounterCondition → String → ℕ → Check
unfolding check_thresholds check_aggregate check_field check_for_duration
validate_counter cc state_name idx = do
  check_thresholds cc state_name idx
  check_aggregate cc.aggregate state_name idx
  check_field cc.field state_name idx
  check_for_duration cc.for_duration state_name idx

unfoldable mutual
  unfolding validate_counter

  pub validate_condition : ConditionDefinition → String → ℕ → Check
  validate_condition (counter cc) state_name idx = validate_counter cc state_name idx
  validate_condition (simple s) state_name idx = pass
  validate_condition (compound all_of one_of negated) state_name idx = do
    validate_maybe_list all_of state_name idx
    validate_maybe_list one_of state_name idx
    validate_maybe negated state_name idx

  pub validate_list : Conditions → String → ℕ → Check
  validate_list nil state_name idx = pass
  validate_list (cons c cs) state_name idx = do
    validate_condition c state_name idx
    validate_list cs state_name idx

  pub validate_maybe_list : MaybeConditions → String → ℕ → Check
  validate_maybe_list absent state_name idx = pass
  validate_maybe_list (present cs) state_name idx = validate_list cs state_name idx

  pub validate_maybe : MaybeCondition → String → ℕ → Check
  validate_maybe missing state_name idx = pass
  validate_maybe (given c) state_name idx = validate_condition c state_name idx

check_after : String → Option String → Check
check_after state_name none = pass
check_after state_name (some after) = elim (parse_duration after) [
  | ok _ ↦ pass
  | err e ↦ err (
      invalid_definition
        ("state '" <> state_name <> "' has invalid duration '" <> after <> "': " <> e))
]

-- The body of the loop over a state's transitions.
check_transition : HashMap StateDefinition → String → TransitionDefinition → Check
unfolding check_after
check_transition states state_name t =
    if contains_key t.to states
    then check_after state_name t.after
    else err (
        invalid_definition
          ("state '" <> state_name <> "' has transition to unknown state '" <> t.to <> "'"))

check_transitions : HashMap StateDefinition → String → List TransitionDefinition → Check
unfolding check_transition
check_transitions states state_name [] = pass
check_transitions states state_name (t ∷ ts) = do
  check_transition states state_name t
  check_transitions states state_name ts

abbrev is_empty : List TransitionDefinition → Bool
is_empty [] = true
is_empty (t ∷ ts) = false

check_terminal : String → StateDefinition → Check
check_terminal state_name def =
    if def.terminal && not (is_empty def.transitions)
    then err
        (invalid_definition ("terminal state '" <> state_name <> "' must not have transitions"))
    else pass

-- The first loop over the states; `states` stays the whole map.
check_states : HashMap StateDefinition → HashMap StateDefinition → Check
unfolding check_transitions check_terminal
check_states states [] = pass
check_states states ((state_name, def) ∷ rest) = do
  check_transitions states state_name def.transitions
  check_terminal state_name def
  check_states states rest

check_when : String → ℕ → Option ConditionDefinition → Check
check_when state_name idx none = pass
check_when state_name idx (some c) = validate_condition c state_name idx

-- `transitions.iter().enumerate()`
check_conditions : String → ℕ → List TransitionDefinition → Check
unfolding check_when
check_conditions state_name idx [] = pass
check_conditions state_name idx (t ∷ ts) = do
  check_when state_name idx t.when
  check_conditions state_name (suc idx) ts

-- The second loop over the states.
check_all_conditions : HashMap StateDefinition → Check
unfolding check_conditions
check_all_conditions [] = pass
check_all_conditions ((state_name, def) ∷ rest) = do
  check_conditions state_name 0 def.transitions
  check_all_conditions rest

check_initial : FsmDefinition → Check
check_initial d =
    if contains_key d.initial d.states
    then pass
    else err (invalid_definition ("initial state '" <> d.initial <> "' not found in states"))

check_has_terminal : FsmDefinition → Check
check_has_terminal d =
    if any (λ s. s.terminal) (values d.states)
    then pass
    else err (invalid_definition "FSM must have at least one terminal state")

unfoldable pub validate : FsmDefinition → Check
unfolding check_initial check_states check_all_conditions check_has_terminal
validate d = do
  check_initial d
  check_states d.states d.states
  check_all_conditions d.states
  check_has_terminal d
