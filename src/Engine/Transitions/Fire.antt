-- ===== src/Engine/Transitions/Fire.antt =====
-- What a transition makes of an instance, and that an action changes nothing but its context.
use pacinet.Prelude.{
  ℕ, String, ◌≡◌, ap, refl, Option, none, some, [], ◌∷◌, ◌++◌, arith, Option-cases, Bool-cases, inl,
  inr, if◌then◌else◌,
}
use pacinet.Text.{◌<>◌}
use pacinet.HashMap.{get}
use pacinet.Fsm.Definition.{FsmDefinition, StateDefinition, ActionDefinition}
use pacinet.Fsm.Status.{FsmInstanceStatus, TransitionTrigger, display_trigger}
use pacinet.Fsm.Instance.{FsmInstance, transition}
use pacinet.Storage.Interface.{Storage}
use pacinet.Counters.Rate.{Floats}
use pacinet.Deploy.Node.{Env}
use pacinet.Engine.Actions.{
  with_context, deploy_batch, execute_deploy, execute_rollback, execute_action,
}
use pacinet.Engine.Transitions.{World, with_status, move_to, enter, fire_transition}

-- The instances are the same but for the context.
abbrev pub SameButContext : FsmInstance → FsmInstance → Type 0
SameButContext i j = j ≡ with_context i j.context

module _ (st : Storage) where
  context-execute_action :
      (fl : Floats) (envs : ℕ → Env) (a : ActionDefinition) (i : FsmInstance) (s : st.State)
      → SameButContext i (execute_action st fl envs a i s).0
  unfolding execute_action execute_deploy execute_rollback deploy_batch
  context-execute_action fl envs a i s = ground arith

  context-enter :
      (w : World) (sd : StateDefinition) (i : FsmInstance) (s : st.State)
      → SameButContext i (enter st w sd i s).0
  unfolding enter
  context-enter w sd i s = elim (Option-cases sd.action) [
    | inl e ↦ rw (e, enter) refl
    | inr (a, e) ↦ rw (e, enter) (context-execute_action w.evaluation.floats w.envs a i s)
  ]

-- The status of an instance that comes into a state of the definition.
abbrev pub status_in : FsmInstanceStatus → Option StateDefinition → FsmInstanceStatus
status_in status none = status
status_in status (some sd) = if sd.terminal then FsmInstanceStatus.completed else status

-- On any storage a transition brings the instance into the target state, puts it at the end of the
-- history, and completes the instance exactly if the target state is a terminal one; the action of the
-- state changes none of this.
pub fire_transition_lem :
    (st : Storage) (w : World) (to_state : String) (trigger : TransitionTrigger) (d : FsmDefinition)
    (i : FsmInstance) (s : st.State)
    → let j = (fire_transition st w to_state trigger d i s).0 in
      (j.current_state ≡ to_state)
      × (j.status ≡ status_in i.status (get to_state d.states))
      × (j.history
          ≡ i.history
            ++ record {
              from_state = i.current_state;
              to_state = to_state;
              trigger = trigger;
              timestamp = w.evaluation.now;
              message =
                  i.current_state <> " -> " <> to_state <> " (" <> display_trigger trigger <> ")";
            }
              ∷ [])
      × (j.instance_id ≡ i.instance_id)
      × (j.definition_name ≡ i.definition_name)
unfolding fire_transition move_to transition
fire_transition_lem st w to_state trigger d i s =
    let j = move_to w.evaluation.now to_state trigger i in
    elim (Option-cases (get to_state d.states)) [
      | inl e ↦ rw (e, fire_transition) (refl, refl, refl, refl, refl)
      | inr (sd, e) ↦
          let c = context-enter st w sd j s in
          rw (e, fire_transition) (after_enter (enter st w sd j s).0 sd c)
    ]
  where
    after_enter :
        (k : FsmInstance) (sd : StateDefinition)
        → SameButContext (move_to w.evaluation.now to_state trigger i) k
        → let j = if sd.terminal then with_status k FsmInstanceStatus.completed else k in
          (j.current_state ≡ to_state)
          × (j.status ≡ status_in i.status (some sd))
          × (j.history ≡ (move_to w.evaluation.now to_state trigger i).history)
          × (j.instance_id ≡ i.instance_id)
          × (j.definition_name ≡ i.definition_name)
    after_enter k sd c = elim (Bool-cases sd.terminal) [
      | inl t ↦ rw t (
        ap (λ m. m.current_state) c,
        refl,
        ap (λ m. m.history) c,
        ap (λ m. m.instance_id) c,
        ap (λ m. m.definition_name) c,
      )
      | inr t ↦ rw t (
        ap (λ m. m.current_state) c,
        ap (λ m. m.status) c,
        ap (λ m. m.history) c,
        ap (λ m. m.instance_id) c,
        ap (λ m. m.definition_name) c,
      )
    ]
