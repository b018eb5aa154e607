-- ===== src/Model/State.antt =====
-- `NodeState` of pacinet-core/src/model.rs: the state machine of a node, its text form and its form in
-- proto/pacinet.proto.
pub mod Graph
pub mod Codec
use pacinet.Prelude.{
  String, ◌==◌, Bool, true, false, List, [], ◌∷◌, Result, ok, err, any, if◌then◌else◌,
}
use pacinet.Text.{to_lowercase, ◌<>◌}

pub data NodeState : Type 0 where
  registered online deploying active error offline : NodeState

-- The derived `PartialEq`.
abbrev pub same_state : NodeState → NodeState → Bool
same_state registered registered = true
same_state online online = true
same_state deploying deploying = true
same_state active active = true
same_state error error = true
same_state offline offline = true
same_state _ _ = false

unfoldable pub valid_transitions : NodeState → List NodeState
valid_transitions registered = online ∷ offline ∷ []
valid_transitions online = deploying ∷ error ∷ offline ∷ []
valid_transitions deploying = active ∷ error ∷ offline ∷ []
valid_transitions active = deploying ∷ error ∷ offline ∷ []
valid_transitions error = online ∷ deploying ∷ offline ∷ []
valid_transitions offline = online ∷ []

unfoldable pub can_transition_to : NodeState → NodeState → Bool
unfolding valid_transitions
can_transition_to s target = any (same_state target) (valid_transitions s)

unfoldable pub display : NodeState → String
display registered = "registered"
display online = "online"
display deploying = "deploying"
display active = "active"
display error = "error"
display offline = "offline"

unfoldable pub from_str : String → Result NodeState String
from_str s =
    let t = to_lowercase s in
    if t == "registered"
    then ok registered
    else if t == "online"
    then ok online
    else if t == "deploying"
    then ok deploying
    else if t == "active"
    then ok active
    else if t == "error"
    then ok error
    else if t == "offline"
    then ok offline
    else err ("unknown node state: " <> s)

-- `enum NodeState` of proto/pacinet.proto.
pub data ProtoNodeState : Type 0 where
  unspecified registered online deploying active error offline : ProtoNodeState

unfoldable pub from_proto : ProtoNodeState → NodeState
from_proto ProtoNodeState.registered = NodeState.registered
from_proto ProtoNodeState.online = NodeState.online
from_proto ProtoNodeState.deploying = NodeState.deploying
from_proto ProtoNodeState.active = NodeState.active
from_proto ProtoNodeState.error = NodeState.error
from_proto ProtoNodeState.offline = NodeState.offline
from_proto ProtoNodeState.unspecified = NodeState.offline

unfoldable pub to_proto : NodeState → ProtoNodeState
to_proto NodeState.registered = ProtoNodeState.registered
to_proto NodeState.online = ProtoNodeState.online
to_proto NodeState.deploying = ProtoNodeState.deploying
to_proto NodeState.active = ProtoNodeState.active
to_proto NodeState.error = ProtoNodeState.error
to_proto NodeState.offline = ProtoNodeState.offline
