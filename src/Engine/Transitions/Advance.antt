-- ===== src/Engine/Transitions/Advance.antt =====
-- An instance is only ever advanced along a transition of its definition.
use mathlib.Core.Path.{subst}
use pacinet.Prelude.{
  String, ◌==◌, ◌≡◌, ◌∙◌, sym, ap, refl, eq_iff, Bool, true, Option, none, some, List, [], ◌∷◌, any,
  find, All-of-in, IsIn, arith, ok, Option-cases, Result-cases, Bool-cases, inl, inr,
}
use pacinet.HashMap.{HashMap, get, values}
use pacinet.Fsm.Definition.{FsmDefinition, StateDefinition, TransitionDefinition}
use pacinet.Fsm.Validate.{validate}
use pacinet.Fsm.Validate.Spec.{IsState, IsValidState, validate-ok_iff}
use pacinet.Fsm.Status.{TransitionTrigger}
use pacinet.Fsm.Instance.{FsmInstance, is_running}
use pacinet.Storage.Interface.{Storage}
use pacinet.Engine.Transitions.{
  World, find_instance, find_definition, is_manual, first_transition, manual_target, advance_target,
  fire_transition, advance_instance,
}
use pacinet.Engine.Transitions.Fire.{fire_transition_lem}

-- A transition of the list leads there.
abbrev pub LeadsTo : String → List TransitionDefinition → Type 0
LeadsTo to ts = (t : TransitionDefinition) × IsIn t ts × (t.to ≡ to)

LeadsTo-any :
    (to : String) (ts : List TransitionDefinition) → any (λ t. t.to == to) ts ≡ true → LeadsTo to ts
LeadsTo-any to [] h = absurd cc
LeadsTo-any to (t ∷ ts) h = elim (Bool-cases (t.to == to)) [
  | inl e ↦ (t, inl refl, (eq_iff t.to to).0 e)
  | inr e ↦ let (u, m, q) = LeadsTo-any to ts (ground (arith, h, e)) in (u, inr m, q)
]

IsIn-find :
    (p : TransitionDefinition → Bool) (ts : List TransitionDefinition) (t : TransitionDefinition)
    → find p ts ≡ some t
    → IsIn t ts
IsIn-find p [] t h = absurd cc
IsIn-find p (u ∷ ts) t h = elim (Bool-cases (p u)) [
  | inl e ↦ inl (ground arith)
  | inr e ↦ inr (IsIn-find p ts t (ground arith))
]

LeadsTo-first :
    (to : String) (ts : List TransitionDefinition)
    → (elim (first_transition ts) [ some t ↦ some t.to | none ↦ none ]) ≡ some to
    → LeadsTo to ts
unfolding first_transition
LeadsTo-first to [] h = absurd cc
LeadsTo-first to (t ∷ ts) h = (t, inl refl, ground (arith, h))

LeadsTo-manual_target :
    (to : String) (ts : List TransitionDefinition) → manual_target ts ≡ some to → LeadsTo to ts
unfolding manual_target
LeadsTo-manual_target to ts h = elim (Option-cases (find is_manual ts)) [
  | inl e ↦ LeadsTo-first to ts (ground (arith, h, e))
  | inr (t, e) ↦ (t, IsIn-find is_manual ts t e, ground (arith, h, e))
]

LeadsTo-advance_target :
    (target : Option String) (current to : String) (ts : List TransitionDefinition)
    → advance_target target current ts ≡ ok to
    → LeadsTo to ts
unfolding advance_target manual_target first_transition
LeadsTo-advance_target (some target) current to ts h =
    elim (Bool-cases (any (λ t. t.to == target) ts)) [
      | inl e ↦ let (t, m, q) = LeadsTo-any target ts e in (t, m, ground (arith, h, e, q))
      | inr e ↦ absurd (ground (arith, h, e))
    ]
LeadsTo-advance_target none current to ts h = LeadsTo-manual_target to ts (ground (arith, h))

IsIn-values :
    (k : String) (v : StateDefinition) (m : HashMap StateDefinition)
    → get k m ≡ some v
    → IsIn v (values m)
unfolding get
IsIn-values k v [] h = absurd cc
IsIn-values k v ((j, w) ∷ m) h = elim (Bool-cases (j == k)) [
  | inl e ↦ inl (ground arith)
  | inr e ↦ inr (IsIn-values k v m (ground arith))
]

IsState-of_transition :
    (d : FsmDefinition) (current to : String) (sd : StateDefinition)
    → validate d ≡ ok tt
    → get current d.states ≡ some sd
    → LeadsTo to sd.transitions
    → IsState to d.states
IsState-of_transition d current to sd v e (t, m, q) =
    let w = (validate-ok_iff d).0 v in
    let valid =
      All-of-in (IsValidState d.states) sd (values d.states) w.states_valid
        (IsIn-values current sd d.states e) in
    subst (λ n. IsState n d.states) q (All-of-in _ t sd.transitions valid.0 m).0

-- On any storage, advancing an instance by a definition that `validate` accepts brings it, if it
-- answers an instance, into a state of the definition.
pub advance_instance-IsState :
    (st : Storage) (w : World) (id : String) (target : Option String) (i j : FsmInstance)
    (d : FsmDefinition) (s : st.State)
    → find_instance st w id s ≡ ok i
    → find_definition st w i.definition_name s ≡ ok d
    → validate d ≡ ok tt
    → (advance_instance st w id target s).0 ≡ ok j
    → IsState j.current_state d.states
unfolding advance_instance
advance_instance-IsState st w id target i j d s f g v h = elim (Bool-cases (is_running i)) [
  | inr r ↦ absurd (ground (arith, f, r, h))
  | inl r ↦ elim (Option-cases (get i.current_state d.states)) [
    | inl n ↦ absurd (ground (arith, f, g, r, n, h))
    | inr (sd, c) ↦ elim (Result-cases (advance_target target i.current_state sd.transitions)) [
      | inr (x, a) ↦ absurd (ground (arith, f, g, r, c, a, h))
      | inl (to, a) ↦
          let (k, t) = fire_transition st w to TransitionTrigger.manual d i s in
          let moved : j ≡ k = elim (Result-cases (st.update_fsm_instance k t).0) [
            | inl (_, u) ↦ ground (arith, f, g, r, c, a, u, h)
            | inr (_, u) ↦ absurd (ground (arith, f, g, r, c, a, u, h))
          ] in
          subst (λ n. IsState n d.states)
            (sym (
              ap (λ m. m.current_state) moved
              ∙ (fire_transition_lem st w to TransitionTrigger.manual d i s).0))
            (IsState-of_transition d i.current_state to sd v c
              (LeadsTo-advance_target target i.current_state to sd.transitions a))
    ]
  ]
]
