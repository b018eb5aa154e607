-- ===== src/Storage/Machines/Laws.antt =====
-- Storing, updating and listing the instances of state machines.
use pacinet.Prelude.{
  OptionAll, OptionAll-of_test, test_of_OptionAll, String, ◌==◌, ◌≡◌, ◌↔◌, eq_iff, true, Option,
  some, arith, ok, err, is_some, if◌then◌else◌, IsIn, IsIn-keep, IsIn-of_IsIn-keep,
}
use pacinet.HashMap.{get, values}
use pacinet.HashMap.Laws.{get-insert, contains_key-eq-is_some}
use pacinet.Error.{fsm, instance_not_found}
use pacinet.Fsm.Status.{FsmInstanceStatus, running, same_status}
use pacinet.Fsm.Instance.{FsmInstance}
use pacinet.Storage.State.{MemoryStorage, listed}
use pacinet.Storage.Machines.{get_fsm_instance, update_fsm_instance, list_fsm_instances}

-- An update replaces the instance that has its identifier and no other; for an unknown identifier it
-- is an error and changes nothing.
pub update_fsm_instance_lem :
    (i : FsmInstance) (k : String) (s : MemoryStorage)
    → ((update_fsm_instance i s).0 ≡ (
        if is_some (get i.instance_id s.fsm_instances)
        then ok tt
        else err (fsm (instance_not_found i.instance_id))))
      × (get_fsm_instance k (update_fsm_instance i s).1 ≡ (
          if is_some (get i.instance_id s.fsm_instances)
          then (if i.instance_id == k then ok (some i) else get_fsm_instance k s)
          else get_fsm_instance k s))
unfolding update_fsm_instance get_fsm_instance
update_fsm_instance_lem i k s = ground (
  arith,
  contains_key-eq-is_some i.instance_id s.fsm_instances,
  get-insert i.instance_id k i s.fsm_instances,
)

-- The instances that `list_fsm_instances` is asked for.
abbrev pub IsWanted : Option String → Option FsmInstanceStatus → FsmInstance → Type 0
IsWanted def_name status i =
    OptionAll (λ n. i.definition_name ≡ n) def_name × OptionAll (λ t. i.status ≡ t) status

status_of_test : (a b : FsmInstanceStatus) → same_status a b ≡ true → a ≡ b
status_of_test a b h = ground arith

test_of_status : (a b : FsmInstanceStatus) → a ≡ b → same_status a b ≡ true
test_of_status a running h = rw h
test_of_status a b h = rw h

IsWanted-of_listed :
    (def_name : Option String) (status : Option FsmInstanceStatus) (i : FsmInstance)
    (s : MemoryStorage)
    → IsIn i (listed (list_fsm_instances def_name status s))
    → IsIn i (values s.fsm_instances) × IsWanted def_name status i
unfolding list_fsm_instances
IsWanted-of_listed def_name status i s m =
    let (a, q) = IsIn-of_IsIn-keep _ i _ m in
    let (b, p) = IsIn-of_IsIn-keep _ i _ a in
    (
      b,
      (
        OptionAll-of_test _ _ def_name (λ n e. (eq_iff i.definition_name n).0 e) p,
        OptionAll-of_test _ _ status (λ t e. status_of_test i.status t e) q,
      ),
    )

listed_of_wanted :
    (def_name : Option String) (status : Option FsmInstanceStatus) (i : FsmInstance)
    (s : MemoryStorage)
    → IsIn i (values s.fsm_instances) × IsWanted def_name status i
    → IsIn i (listed (list_fsm_instances def_name status s))
unfolding list_fsm_instances
listed_of_wanted def_name status i s h =
    IsIn-keep _ i _
      (IsIn-keep _ i _ h.0
        (test_of_OptionAll _ _ def_name (λ n e. (eq_iff i.definition_name n).1 e) h.1.0))
      (test_of_OptionAll _ _ status (λ t e. test_of_status i.status t e) h.1.1)

-- `list_fsm_instances` answers exactly the stored instances of the wanted definition and status.
pub list_fsm_instances_iff :
    (def_name : Option String) (status : Option FsmInstanceStatus) (i : FsmInstance)
    (s : MemoryStorage)
    → IsIn i (listed (list_fsm_instances def_name status s))
      ↔ (IsIn i (values s.fsm_instances) × IsWanted def_name status i)
list_fsm_instances_iff def_name status i s =
    (IsWanted-of_listed def_name status i s, listed_of_wanted def_name status i s)
