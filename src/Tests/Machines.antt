-- ===== src/Tests/Machines.antt =====
-- The theorems about the definitions, the instances and the engine at concrete inputs.
use pacinet.Model.State.{active}
use pacinet.Engine.Actions.{next_batch, batch_size}
use pacinet.Engine.Actions.Batch.{next_batch-window}
use pacinet.Prelude.{arith, ◌++◌, ◌≤◌, take, ◌<◌, ◌≡◌, ◌↔◌, refl, none, some, [], ◌∷◌, ok, err}
use pacinet.HashMap.{get, insert}
use pacinet.Error.{PaciNetError, FsmError}
use pacinet.Fsm.Validate.{validate}
use pacinet.Fsm.Validate.Spec.{IsWellFormed, validate-ok_iff}
use pacinet.Fsm.Status
use pacinet.Fsm.Status.{FsmInstanceStatus, TransitionTrigger, FsmInstanceStatus-from_str_iff}
use pacinet.Fsm.Instance.{is_running}
use pacinet.Storage.State.{MemoryStorage, new}
use pacinet.Storage.Interface.{memory}
use pacinet.Storage.Machines.{store_fsm_instance}
use pacinet.Storage.Run.{Call, run, step}
use pacinet.Storage.Run.Preserves.{run-IsValid}
use pacinet.Engine.Transitions.{
  fire_transition, cancelled_instance, cancel_instance, advance_instance,
}
use pacinet.Engine.Transitions.Fire.{status_in, fire_transition_lem}
use pacinet.Engine.Transitions.Cancel.{cancel_instance_lem}
use pacinet.Tests.Data.{canary, instance_one, fleet, world, floats, node}

validate-ok_iff_example : (validate canary ≡ ok tt) ↔ IsWellFormed canary
validate-ok_iff_example = validate-ok_iff canary

abbrev machines : MemoryStorage
machines = run (Call.store_fsm_instance instance_one ∷ []) new

fire_transition_lem_example :
    let j =
      (fire_transition memory world "done" TransitionTrigger.timer canary instance_one fleet).0 in
    (j.current_state ≡ "done")
    × (j.status ≡ status_in FsmInstanceStatus.running (get "done" canary.states))
    × (j.history
        ≡ record {
          from_state = "start";
          to_state = "done";
          trigger = TransitionTrigger.timer;
          timestamp = 9;
          message = "start -> done (timer)";
        }
          ∷ [])
    × (j.instance_id ≡ "i")
    × (j.definition_name ≡ "canary")
unfolding Status.display_trigger
fire_transition_lem_example =
    fire_transition_lem memory world "done" TransitionTrigger.timer canary instance_one fleet

cancel_instance_lem_example :
    let t = (cancel_instance memory world "i" "stop" machines).1 in
    ((cancel_instance memory world "i" "stop" machines).0 ≡ ok tt)
    × (get "i" t.fsm_instances ≡ some (cancelled_instance 9 "stop" instance_one))
    × (advance_instance memory world "i" none t
        ≡ (err (PaciNetError.fsm FsmError.already_completed), t))
    × (cancel_instance memory world "i" "again" t
        ≡ (err (PaciNetError.fsm FsmError.already_completed), t))
unfolding run step store_fsm_instance insert get is_running
cancel_instance_lem_example =
    cancel_instance_lem world world "i" "stop" "again" none instance_one machines
      (run-IsValid (Call.store_fsm_instance instance_one ∷ [])) refl refl

next_batch-window_example :
    (1 < 2)
    × (2 ≤ 2)
    × (take 2 (node "a" active 1 ∷ node "b" active 2 ∷ [])
        ≡ take 1 (node "a" active 1 ∷ node "b" active 2 ∷ []) ++ node "b" active 2 ∷ [])
unfolding next_batch batch_size
next_batch-window_example =
    next_batch-window floats 1 1 2 (node "a" active 1 ∷ node "b" active 2 ∷ [])
      (node "b" active 2 ∷ []) (omega arith) refl
