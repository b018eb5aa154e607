-- ===== src/Engine/Transitions.antt =====
-- The transitions of an instance: `fire_transition`, `evaluate_instance`, `evaluate_all`, and the calls
-- that start, advance and cancel an instance. One handler reads the clock once.
pub mod Cancel
pub mod Fire
pub mod Advance
use pacinet.Prelude.{
  ℕ, suc, ◌+◌, String, ◌==◌, Bool, true, false, not, ◌&&◌, Option, none, some, List, [], ◌∷◌, ◌++◌,
  map, Result, ok, err, leb, any, find, is_some, if◌then◌else◌,
}
use text.Mathlib.Text.{starts_with}
use pacinet.Text.{◌<>◌}
use pacinet.HashMap.{HashMap, get, retain}
use pacinet.Model.{DateTime}
use pacinet.Error.{PaciNetError, FsmError}
use pacinet.Fsm.Duration.{parse_duration}
use pacinet.Fsm.Definition.{
  FsmDefinition, StateDefinition, TransitionDefinition, ConditionDefinition, CompileOptions, simple,
}
use pacinet.Fsm.Status.{FsmInstanceStatus, TransitionTrigger, display_trigger, same_status}
use pacinet.Fsm.Instance.{
  FsmInstance, FsmContext, FsmTransitionRecord, new_instance, transition, is_running,
  for_deployment, for_adaptive_policy,
}
use pacinet.Storage.State.{Answer}
use pacinet.Storage.Interface.{Storage}
use pacinet.Deploy.Node.{Env}
use pacinet.Engine.Conditions.{Evaluation, evaluate_condition, with_times, is_some_true}
use pacinet.Engine.Actions.{execute_action, with_context}

-- What a handler takes from outside: what an evaluation reads, a fresh identifier, the text of a
-- storage error, and what the deployments of its action find.
pub record World : Type 0 where
  pub evaluation : Evaluation
  pub uuid : String
  pub error_text : PaciNetError → String
  pub envs : ℕ → Env

-- `.map_err(|e| Internal(e.to_string()))?`
abbrev pub internally : {A : Type 0} → World → Answer A → Answer A
internally w (ok a) = ok a
internally w (err e) = err (PaciNetError.internal (w.error_text e))

-- `ok_or_else`
abbrev pub or_error : {A : Type 0} → PaciNetError → Option A → Answer A
or_error e none = err e
or_error e (some a) = ok a

abbrev pub with_status : FsmInstance → FsmInstanceStatus → FsmInstance
with_status i status = record i { status = status }

unfoldable pub clear_times : String → HashMap DateTime → HashMap DateTime
clear_times old_state times = retain (λ k. not (starts_with k (old_state <> ":"))) times

-- The transition without its action.
unfoldable pub move_to : DateTime → String → TransitionTrigger → FsmInstance → FsmInstance
unfolding clear_times
move_to now to_state trigger i =
    transition now to_state trigger
      (i.current_state <> " -> " <> to_state <> " (" <> display_trigger trigger <> ")")
      (with_times i (clear_times i.current_state i.context.counter_condition_first_true))

-- Whether `when` is the simple condition with `manual: true`.
unfoldable pub is_manual : TransitionDefinition → Bool
is_manual t = elim t.when [ some (simple s) ↦ is_some_true s.manual | _ ↦ false ]

unfoldable pub first_transition : List TransitionDefinition → Option TransitionDefinition
first_transition [] = none
first_transition (t ∷ ts) = some t

-- `find(…).or_else(|| first()).map(|t| t.to)`
unfoldable pub manual_target : List TransitionDefinition → Option String
unfolding is_manual first_transition
manual_target ts = elim (find is_manual ts) [
  | some t ↦ some t.to
  | none ↦ elim (first_transition ts) [ some t ↦ some t.to | none ↦ none ]
]

-- The state to advance to: the one that is asked for, if a transition leads there.
unfoldable pub advance_target :
    Option String → String → List TransitionDefinition → Result String FsmError
unfolding manual_target
advance_target (some target) current ts =
    if any (λ t. t.to == target) ts
    then ok target
    else err
        (FsmError.no_transition ("no transition from '" <> current <> "' to '" <> target <> "'"))
advance_target none current ts = elim (manual_target ts) [
  | some to ↦ ok to
  | none ↦ err (FsmError.no_transition current)
]

unfoldable pub is_timer_due : Evaluation → String → FsmInstance → Bool
is_timer_due e after i = elim (parse_duration after) [
  | ok seconds ↦ leb (i.updated_at + e.from_std seconds) e.now
  | err _ ↦ false
]

-- `should_fire`
unfoldable pub should_fire :
    Evaluation → TransitionDefinition → String → ℕ → FsmInstance → Bool × FsmInstance
unfolding is_timer_due
should_fire e t current_state idx i = elim t.when [
  | some c ↦ evaluate_condition e c current_state idx i
  | none ↦ elim t.after [ some after ↦ (is_timer_due e after i, i) | none ↦ (false, i) ]
]

unfoldable pub trigger_of : TransitionDefinition → TransitionTrigger
trigger_of t = if is_some t.after then TransitionTrigger.timer else TransitionTrigger.condition

abbrev pub cancelled_instance : DateTime → String → FsmInstance → FsmInstance
cancelled_instance now reason i = record i {
  status = FsmInstanceStatus.cancelled;
  updated_at = now;
  history =
      i.history
      ++ (record {
        from_state = i.current_state;
        to_state = "";
        trigger = TransitionTrigger.manual;
        timestamp = now;
        message = "Cancelled: " <> reason;
      })
        ∷ [];
}

module _ (st : Storage) where
  open st use {
    State, list_nodes, get_fsm_definition, get_fsm_instance, store_fsm_instance,
    update_fsm_instance, list_fsm_instances,
  }

  -- The action of a state, if it has one.
  unfoldable pub enter : World → StateDefinition → FsmInstance → State → FsmInstance × State
  enter w sd i s = elim sd.action [
    | none ↦ (i, s)
    | some a ↦ execute_action st w.evaluation.floats w.envs a i s
  ]

  unfoldable pub fire_transition :
      World → String → TransitionTrigger → FsmDefinition → FsmInstance → State → FsmInstance × State
  unfolding move_to enter
  fire_transition w to_state trigger d i s =
      let j = move_to w.evaluation.now to_state trigger i in
      elim (get to_state d.states) [
        | none ↦ (j, s)
        | some sd ↦
            let (k, t) = enter w sd j s in
            (if sd.terminal then with_status k FsmInstanceStatus.completed else k, t)
      ]

  -- The loop over the transitions, and what follows it.
  unfoldable pub try_transitions :
      World → FsmDefinition → String → ℕ → List TransitionDefinition → FsmInstance → State → State
  unfolding should_fire trigger_of
  try_transitions w d current_state idx [] i s = (update_fsm_instance i s).1
  try_transitions w d current_state idx (t ∷ ts) i s =
      let (fires, j) = should_fire w.evaluation t current_state idx i in
      let rest = try_transitions w d current_state (suc idx) ts j s in
      if fires
      then (let (k, s₁) = fire_transition w t.to (trigger_of t) d j s in
          (update_fsm_instance k s₁).1)
      else rest

  unfoldable pub evaluate_instance : World → FsmDefinition → FsmInstance → State → State
  unfolding try_transitions
  evaluate_instance w d i s = elim (get i.current_state d.states) [
    | none ↦ s
    | some sd ↦
        if sd.terminal
        then if is_running i
          then (update_fsm_instance
              (record i { status = FsmInstanceStatus.completed; updated_at = w.evaluation.now })
              s).1
          else s
        else try_transitions w d i.current_state 0 sd.transitions i s
  ]

  -- The body of the loop of `evaluate_all`.
  unfoldable pub evaluate_one : World → FsmInstance → State → State
  unfolding evaluate_instance
  evaluate_one w i s = elim (get_fsm_definition i.definition_name s) [
    | err _ ↦ s
    | ok none ↦ (update_fsm_instance (with_status i FsmInstanceStatus.failed) s).1
    | ok (some d) ↦ evaluate_instance w d i s
  ]

  unfoldable pub evaluate_each : (ℕ → World) → ℕ → List FsmInstance → State → State
  unfolding evaluate_one
  evaluate_each ws n [] s = s
  evaluate_each ws n (i ∷ is) s = evaluate_each ws (suc n) is (evaluate_one (ws n) i s)

  unfoldable pub evaluate_all : (ℕ → World) → State → State
  unfolding evaluate_each
  evaluate_all ws s = elim (list_fsm_instances none (some FsmInstanceStatus.running) s) [
    | err _ ↦ s
    | ok instances ↦ evaluate_each ws 0 instances s
  ]

  -- The definition of the name, or the errors of a missing one and of the storage.
  unfoldable pub find_definition : World → String → State → Answer FsmDefinition
  find_definition w name s = elim (internally w (get_fsm_definition name s)) [
    | err e ↦ err e
    | ok d ↦ or_error (PaciNetError.fsm (FsmError.definition_not_found name)) d
  ]

  unfoldable pub find_instance : World → String → State → Answer FsmInstance
  find_instance w id s = elim (internally w (get_fsm_instance id s)) [
    | err e ↦ err e
    | ok i ↦ or_error (PaciNetError.fsm (FsmError.instance_not_found id)) i
  ]

  -- The common end of the two calls that start an instance.
  unfoldable pub start : World → FsmDefinition → FsmInstance → State → Answer FsmInstance × State
  start w d i s =
      let (j, t) : FsmInstance × State = elim (get d.initial d.states) [
        | none ↦ (i, s)
        | some sd ↦ enter w sd i s
      ] in
      let (stored, u) = store_fsm_instance j t in
      (elim (internally w stored) [ err e ↦ err e | ok _ ↦ ok j ], u)

  unfoldable pub start_instance :
      World → String → String → Option CompileOptions → State → Answer FsmInstance × State
  unfolding find_definition start
  start_instance w def_name rules_yaml compile_options s = elim (find_definition w def_name s) [
    | err e ↦ (err e, s)
    | ok d ↦
        start w d
          (new_instance w.uuid w.evaluation.now def_name d.initial
            (for_deployment rules_yaml compile_options))
          s
  ]

  unfoldable pub start_adaptive_instance :
      World
      → String
      → Option String
      → Option CompileOptions
      → HashMap String
      → State
      → Answer FsmInstance × State
  unfolding find_definition start
  start_adaptive_instance w def_name rules_yaml compile_options label_filter s =
      elim (find_definition w def_name s) [
        | err e ↦ (err e, s)
        | ok d ↦ elim (internally w (list_nodes label_filter s)) [
          | err e ↦ (err e, s)
          | ok [] ↦ (err (PaciNetError.internal "No nodes match the target label filter"), s)
          | ok (n ∷ ns) ↦
              let context = record (for_adaptive_policy (map (λ x. x.node_id) (n ∷ ns))) {
                rules_yaml = rules_yaml;
                compile_options = compile_options;
              } in
              start w d (new_instance w.uuid w.evaluation.now def_name d.initial context) s
        ]
      ]

  unfoldable pub advance_instance :
      World → String → Option String → State → Answer FsmInstance × State
  unfolding find_instance find_definition advance_target fire_transition
  advance_instance w instance_id target_state s = elim (find_instance w instance_id s) [
    | err e ↦ (err e, s)
    | ok i ↦
        if not (is_running i)
        then (err (PaciNetError.fsm FsmError.already_completed), s)
        else elim (find_definition w i.definition_name s) [
          | err e ↦ (err e, s)
          | ok d ↦ elim (get i.current_state d.states) [
            | none ↦ (err (PaciNetError.fsm (FsmError.invalid_state i.current_state)), s)
            | some sd ↦ elim (advance_target target_state i.current_state sd.transitions) [
              | err e ↦ (err (PaciNetError.fsm e), s)
              | ok to_state ↦
                  let (j, t) = fire_transition w to_state TransitionTrigger.manual d i s in
                  let (updated, u) = update_fsm_instance j t in
                  (elim (internally w updated) [ err e ↦ err e | ok _ ↦ ok j ], u)
            ]
          ]
        ]
  ]

  unfoldable pub cancel_instance : World → String → String → State → Answer (Unit {0}) × State
  unfolding find_instance
  cancel_instance w instance_id reason s = elim (find_instance w instance_id s) [
    | err e ↦ (err e, s)
    | ok i ↦
        if not (is_running i)
        then (err (PaciNetError.fsm FsmError.already_completed), s)
        else let (updated, t) =
            update_fsm_instance (cancelled_instance w.evaluation.now reason i) s in
          (internally w updated, t)
  ]
