-- ===== src/Fsm/Status.antt =====
-- `FsmInstanceStatus` and `TransitionTrigger` of pacinet-core/src/fsm/instance.rs.
use pacinet.Prelude.{
  String, ◌==◌, ◌≡◌, ◌↔◌, eq_iff, arith, Bool, true, false, Result, ok, err, if◌then◌else◌,
}
use pacinet.Text.{to_lowercase, ◌<>◌}

pub data FsmInstanceStatus : Type 0 where
  running completed failed cancelled : FsmInstanceStatus

-- The derived `PartialEq`.
abbrev pub same_status : FsmInstanceStatus → FsmInstanceStatus → Bool
same_status running running = true
same_status completed completed = true
same_status failed failed = true
same_status cancelled cancelled = true
same_status _ _ = false

unfoldable pub display : FsmInstanceStatus → String
display running = "running"
display completed = "completed"
display failed = "failed"
display cancelled = "cancelled"

unfoldable pub from_str : String → Result FsmInstanceStatus String
from_str s =
    let t = to_lowercase s in
    if t == "running"
    then ok running
    else if t == "completed"
    then ok completed
    else if t == "failed"
    then ok failed
    else if t == "cancelled"
    then ok cancelled
    else err ("unknown FSM instance status: " <> s)

pub data TransitionTrigger : Type 0 where
  condition timer manual action_result initial : TransitionTrigger

unfoldable pub display_trigger : TransitionTrigger → String
display_trigger condition = "condition"
display_trigger timer = "timer"
display_trigger manual = "manual"
display_trigger action_result = "action_result"
display_trigger initial = "initial"

status_of_from_str :
    (s : String) (n : FsmInstanceStatus) → from_str s ≡ ok n → to_lowercase s ≡ display n
unfolding from_str display
status_of_from_str s n h =
    let t = to_lowercase s in
    ground
      (arith, eq_iff t "running", eq_iff t "completed", eq_iff t "failed", eq_iff t "cancelled")

from_str_of_display :
    (s : String) (n : FsmInstanceStatus) → to_lowercase s ≡ display n → from_str s ≡ ok n
unfolding from_str display
from_str_of_display s running h = rw h
from_str_of_display s n h = rw h

-- A text reads as a status exactly when its lower case is the printed form of that status.
pub FsmInstanceStatus-from_str_iff :
    (s : String) (n : FsmInstanceStatus) → (from_str s ≡ ok n) ↔ (to_lowercase s ≡ display n)
FsmInstanceStatus-from_str_iff s n = (status_of_from_str s n, from_str_of_display s n)
