-- ===== src/Model/State/Graph.antt =====
-- The diagram of a node's life: what `valid_transitions` allows over any number of steps.
use mathlib.Core.Path.{subst}
use pacinet.Prelude.{sym, ◌↔◌, ◌∙◌, ◌≡◌, ◌≢◌, refl, true, arith, ◌⊎◌, inl, inr}
use pacinet.Model.State.{
  NodeState, registered, online, deploying, active, error, offline, can_transition_to,
}

NodeState-discrete : Discrete NodeState
NodeState-discrete = hlevel

-- A walk whose every step `can_transition_to` accepts.
pub data Walk : NodeState → NodeState → Type 0 where
  stay : {s : NodeState} → Walk s s
  step : {s t u : NodeState} → can_transition_to s t ≡ true → Walk t u → Walk s u

-- Every transition leads somewhere else, and none leads back to `Registered`.
pub can_transition_to_ne :
    (s t : NodeState) → can_transition_to s t ≡ true → (t ≢ s) × (t ≢ registered)
unfolding can_transition_to
can_transition_to_ne s t h = ground arith

-- The states that a walk has been through, its start and its end included.
pub Visits : {s t : NodeState} → NodeState → Walk s t → Type 0
Visits {s} n stay = n ≡ s
Visits {s} n (step h w) = (n ≡ s) ⊎ Visits n w

append : {s t u : NodeState} → Walk s t → Walk t u → Walk s u
append stay w = w
append (step h v) w = step h (append v w)

to_online : (s : NodeState) → Walk s online
unfolding can_transition_to
to_online registered = step refl stay
to_online online = stay
to_online deploying = step {t = error} refl (step refl stay)
to_online active = step {t = error} refl (step refl stay)
to_online error = step refl stay
to_online offline = step refl stay

from_online : (t : NodeState) → t ≢ registered → Walk online t
unfolding can_transition_to
from_online registered h = absurd (h refl)
from_online online h = stay
from_online deploying h = step refl stay
from_online active h = step {t = deploying} refl (step refl stay)
from_online error h = step refl stay
from_online offline h = step refl stay

Walk-registered : {s t : NodeState} → Walk s t → s ≢ registered → t ≢ registered
Walk-registered stay h = h
Walk-registered (step {s = a} {t = b} e w) h = Walk-registered w (can_transition_to_ne a b e).1

-- A node can be brought from one state to another by accepted transitions exactly when the target is
-- not `Registered`, or is the state that the node is in.
pub reachable_iff : (s t : NodeState) → Walk s t ↔ ((t ≢ registered) ⊎ (s ≡ t))
reachable_iff s t = (to, from)
  where
    to : Walk s t → (t ≢ registered) ⊎ (s ≡ t)
    to w = elim (NodeState-discrete s registered) [
      | yes p ↦ elim (NodeState-discrete t registered) [ yes q ↦ inr (p ∙ sym q) | no q ↦ inl q ]
      | no p ↦ inl (Walk-registered w p)
    ]

    from : (t ≢ registered) ⊎ (s ≡ t) → Walk s t
    from (inl h) = append (to_online s) (from_online t h)
    from (inr e) = subst (Walk s) e stay

before_active : (s : NodeState) → can_transition_to s active ≡ true → s ≡ deploying
unfolding can_transition_to
before_active s h = ground arith

via : {s t : NodeState} (w : Walk s t) → t ≡ active → s ≢ active → Visits deploying w
unfolding Visits
via stay e h = absurd (h e)
via (step {s = a} {t = b} g w) e h = elim (NodeState-discrete b active) [
  | yes q ↦ inl (sym (before_active a (subst (λ x. can_transition_to a x ≡ true) q g)))
  | no q ↦ inr (via w e q)
]

-- Every walk that makes a node active passes through `Deploying`.
pub active-Visits_deploying : {s : NodeState} (w : Walk s active) → s ≢ active → Visits deploying w
active-Visits_deploying w h = via w refl h
