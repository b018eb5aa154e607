-- ===== src/Fsm/Instance/History.antt =====
-- The history of an instance is a chain of transitions that ends in the current state.
use pacinet.Prelude.{String, ◌≡◌, refl, List, [], ◌∷◌, ◌++◌, sym, ◌∙◌}
use pacinet.Model.{DateTime}
use pacinet.Fsm.Status.{TransitionTrigger}
use pacinet.Fsm.Instance.{FsmInstance, FsmContext, FsmTransitionRecord, new_instance, transition}

-- A chain that starts in the state `s` and ends in the state `e`.
abbrev pub IsChain : String → List FsmTransitionRecord → String → Type 0
IsChain s [] e = s ≡ e
IsChain s (r ∷ rs) e = (r.from_state ≡ s) × IsChain r.to_state rs e

-- The history leads from no state, written as the empty text, to the current one.
abbrev pub IsLinked : FsmInstance → Type 0
IsLinked i = IsChain "" i.history i.current_state

IsChain-concat :
    (s e : String) (rs : List FsmTransitionRecord) (r : FsmTransitionRecord)
    → IsChain s rs e
    → r.from_state ≡ e
    → IsChain s (rs ++ r ∷ []) r.to_state
IsChain-concat s e [] r h f = (f ∙ sym h, refl)
IsChain-concat s e (x ∷ rs) r h f = (h.0, IsChain-concat x.to_state e rs r h.1 f)

pub new_instance-IsLinked :
    (uuid : String) (now : DateTime) (d s : String) (c : FsmContext)
    → IsLinked (new_instance uuid now d s c)
unfolding new_instance
new_instance-IsLinked uuid now d s c = (refl, refl)

-- Every transition keeps the history a chain that ends in the current state.
pub transition-IsLinked :
    (now : DateTime) (to : String) (t : TransitionTrigger) (m : String) (i : FsmInstance)
    → IsLinked i
    → IsLinked (transition now to t m i)
unfolding transition
transition-IsLinked now to t m i h = IsChain-concat "" i.current_state i.history _ h refl
