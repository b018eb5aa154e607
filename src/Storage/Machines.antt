-- ===== src/Storage/Machines.antt =====
-- The definitions and the instances of state machines in `MemoryStorage`.
pub mod Laws
use pacinet.Prelude.{
  String, ◌==◌, Bool, Option, none, some, List, ok, err, keep, is_some, is_none_or, if◌then◌else◌,
}
use pacinet.HashMap.{get, insert, remove, values, contains_key}
use pacinet.Error.{fsm, instance_not_found}
use pacinet.Fsm.Definition.{FsmDefinition, FsmKind, same_kind}
use pacinet.Fsm.Status.{FsmInstanceStatus, same_status}
use pacinet.Fsm.Instance.{FsmInstance}
use pacinet.Storage.State.{MemoryStorage, Answer, Method}

unfoldable pub store_fsm_definition : FsmDefinition → Method (Unit {0})
store_fsm_definition def s =
    (ok tt, record s { fsm_definitions = insert def.name def s.fsm_definitions })

unfoldable pub get_fsm_definition : String → MemoryStorage → Answer (Option FsmDefinition)
get_fsm_definition name s = ok (get name s.fsm_definitions)

unfoldable pub list_fsm_definitions : Option FsmKind → MemoryStorage → Answer (List FsmDefinition)
list_fsm_definitions kind s =
    ok (keep (λ d. is_none_or kind (λ k. same_kind d.kind k)) (values s.fsm_definitions))

unfoldable pub delete_fsm_definition : String → Method Bool
delete_fsm_definition name s = (
  ok (is_some (get name s.fsm_definitions)),
  record s { fsm_definitions = remove name s.fsm_definitions },
)

unfoldable pub store_fsm_instance : FsmInstance → Method (Unit {0})
store_fsm_instance instance_ s =
    (ok tt, record s { fsm_instances = insert instance_.instance_id instance_ s.fsm_instances })

unfoldable pub get_fsm_instance : String → MemoryStorage → Answer (Option FsmInstance)
get_fsm_instance id s = ok (get id s.fsm_instances)

unfoldable pub update_fsm_instance : FsmInstance → Method (Unit {0})
update_fsm_instance instance_ s =
    if contains_key instance_.instance_id s.fsm_instances
    then (
      ok tt,
      record s { fsm_instances = insert instance_.instance_id instance_ s.fsm_instances },
    )
    else (err (fsm (instance_not_found instance_.instance_id)), s)

unfoldable pub list_fsm_instances :
    Option String → Option FsmInstanceStatus → MemoryStorage → Answer (List FsmInstance)
list_fsm_instances def_name status s = ok (
    keep (λ i. is_none_or status (λ t. same_status i.status t))
      (keep (λ i. is_none_or def_name (λ n. i.definition_name == n)) (values s.fsm_instances)))
