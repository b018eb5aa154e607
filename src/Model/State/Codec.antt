-- ===== src/Model/State/Codec.antt =====
-- The text form and the wire form of a node's state.
use pacinet.Prelude.{String, ◌≡◌, ◌↔◌, ◌⊎◌, eq_iff, arith, ok}
use pacinet.Text.{to_lowercase}
use pacinet.Model.State.{
  NodeState, ProtoNodeState, display, from_str, from_proto, to_proto, offline, registered,
}

state_of_from_str : (s : String) (n : NodeState) → from_str s ≡ ok n → to_lowercase s ≡ display n
unfolding from_str display
state_of_from_str s n h =
    let t = to_lowercase s in
    ground (
      arith,
      eq_iff t "registered",
      eq_iff t "online",
      eq_iff t "deploying",
      eq_iff t "active",
      eq_iff t "error",
      eq_iff t "offline",
    )

from_str_of_display : (s : String) (n : NodeState) → to_lowercase s ≡ display n → from_str s ≡ ok n
unfolding from_str display
from_str_of_display s registered h = rw h
from_str_of_display s n h = rw h

-- A text reads as a state exactly when its lower case is the printed form of that state.
pub NodeState-from_str_iff :
    (s : String) (n : NodeState) → (from_str s ≡ ok n) ↔ (to_lowercase s ≡ display n)
NodeState-from_str_iff s n = (state_of_from_str s n, from_str_of_display s n)

-- A state comes back from its wire form, and only `Offline` has a second one, `Unspecified`.
pub from_proto_iff :
    (p : ProtoNodeState) (n : NodeState)
    → (from_proto p ≡ n) ↔ ((p ≡ to_proto n) ⊎ ((p ≡ ProtoNodeState.unspecified) × (n ≡ offline)))
unfolding from_proto to_proto
from_proto_iff p n = (ground arith, ground arith)
