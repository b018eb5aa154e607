-- ===== src/Fsm/Validate/Spec.antt =====
-- What `validate` accepts, said without the order of its checks and without its messages.
use pacinet.Prelude.{
  both, OptionAll, sym, ap, ◌∙◌, ℕ, suc, String, ◌≡◌, ◌⊎◌, ◌↔◌, inl, inr, refl, arith, true, false,
  Option, none, some, List, [], ◌∷◌, any, ok, is_some, Bool-cases, All, IsIn,
}
use pacinet.HashMap.{HashMap, get, contains_key, values}
use pacinet.HashMap.Laws.{contains_key-eq-is_some}
use pacinet.Fsm.Definition.{
  FsmDefinition, StateDefinition, TransitionDefinition, ConditionDefinition,
}
use pacinet.Fsm.Validate.{
  validate, check_after, check_transition, check_transitions, check_terminal, check_states,
  check_when, check_conditions, check_all_conditions, check_initial, check_has_terminal,
}
use pacinet.Fsm.Validate.Clauses.{IsDuration, IsValidCondition, pass_iff, condition_iff}

abbrev pub IsState : String → HashMap StateDefinition → Type 0
IsState name states = (s : StateDefinition) × (get name states ≡ some s)

abbrev pub IsValidTransition : HashMap StateDefinition → TransitionDefinition → Type 0
IsValidTransition states t =
    IsState t.to states × OptionAll IsDuration t.after × OptionAll IsValidCondition t.when

abbrev pub IsValidState : HashMap StateDefinition → StateDefinition → Type 0
IsValidState states s =
    All (IsValidTransition states) s.transitions × ((s.terminal ≡ false) ⊎ (s.transitions ≡ []))

pub record IsWellFormed (d : FsmDefinition) : Type 0 where
  pub initial_exists : IsState d.initial d.states
  pub states_valid : All (IsValidState d.states) (values d.states)
  pub has_terminal : (s : StateDefinition) × IsIn s (values d.states) × (s.terminal ≡ true)

given_value : {A : Type 0} (o : Option A) → is_some o ≡ true → (a : A) × (o ≡ some a)
given_value o h = ground arith

IsState-iff :
    (n : String) (states : HashMap StateDefinition)
    → (contains_key n states ≡ true) ↔ IsState n states
IsState-iff n states = (
  λ h. given_value (get n states) (sym (contains_key-eq-is_some n states) ∙ h),
  λ h. contains_key-eq-is_some n states ∙ ap is_some h.1,
)

after_iff : (n : String) (o : Option String) → (check_after n o ≡ ok tt) ↔ OptionAll IsDuration o
unfolding check_after
after_iff n none = pass_iff
after_iff n (some f) = (ground arith, λ h. rw (h.1, check_after))

when_iff :
    (n : String) (i : ℕ) (o : Option ConditionDefinition)
    → (check_when n i o ≡ ok tt) ↔ OptionAll IsValidCondition o
unfolding check_when
when_iff n i none = pass_iff
when_iff n i (some c) = condition_iff c n i

terminal_iff :
    (n : String) (s : StateDefinition)
    → (check_terminal n s ≡ ok tt) ↔ ((s.terminal ≡ false) ⊎ (s.transitions ≡ []))
unfolding check_terminal
terminal_iff n s = (ground arith, ground arith)

-- The part of `IsValidTransition` that the first loop checks.
abbrev HasTarget : HashMap StateDefinition → TransitionDefinition → Type 0
HasTarget states t = IsState t.to states × OptionAll IsDuration t.after

transition_iff :
    (states : HashMap StateDefinition) (n : String) (t : TransitionDefinition)
    → (check_transition states n t ≡ ok tt) ↔ HasTarget states t
unfolding check_transition
transition_iff states n t = (
  λ h. ((IsState-iff t.to states).0 (guard h), (after_iff n t.after).0 (rest h)),
  λ h. rw ((IsState-iff t.to states).1 h.0, check_transition) ((after_iff n t.after).1 h.1),
)
  where
    guard : check_transition states n t ≡ ok tt → contains_key t.to states ≡ true
    guard h = ground arith

    rest : check_transition states n t ≡ ok tt → check_after n t.after ≡ ok tt
    rest h = ground arith

transitions_iff :
    (states : HashMap StateDefinition) (n : String) (ts : List TransitionDefinition)
    → (check_transitions states n ts ≡ ok tt) ↔ All (HasTarget states) ts
unfolding check_transitions
transitions_iff states n [] = pass_iff
transitions_iff states n (t ∷ ts) =
    both (check_transition states n t) (check_transitions states n ts) (transition_iff states n t)
      (transitions_iff states n ts)

conditions_iff :
    (n : String) (i : ℕ) (ts : List TransitionDefinition)
    → (check_conditions n i ts ≡ ok tt) ↔ All (λ t. OptionAll IsValidCondition t.when) ts
unfolding check_conditions
conditions_iff n i [] = pass_iff
conditions_iff n i (t ∷ ts) =
    both (check_when n i t.when) (check_conditions n (suc i) ts) (when_iff n i t.when)
      (conditions_iff n (suc i) ts)

-- What the two loops check of a state.
abbrev IsChecked : HashMap StateDefinition → StateDefinition → Type 0
IsChecked states s =
    All (HasTarget states) s.transitions × ((s.terminal ≡ false) ⊎ (s.transitions ≡ []))

abbrev HasConditions : StateDefinition → Type 0
HasConditions s = All (λ t. OptionAll IsValidCondition t.when) s.transitions

states_iff :
    (states rest : HashMap StateDefinition)
    → (check_states states rest ≡ ok tt) ↔ All (IsChecked states) (values rest)
unfolding check_states
states_iff states [] = pass_iff
states_iff states ((n, s) ∷ rest) =
    let parts =
      both (check_transitions states n s.transitions) _ (transitions_iff states n s.transitions) (
        both (check_terminal n s) (check_states states rest) (terminal_iff n s)
          (states_iff states rest)) in
    (λ h. let (x, (y, z)) = parts.0 h in ((x, y), z), λ h. parts.1 (h.0.0, (h.0.1, h.1)))

All-conditions_iff :
    (states : HashMap StateDefinition)
    → (check_all_conditions states ≡ ok tt) ↔ All HasConditions (values states)
unfolding check_all_conditions
All-conditions_iff [] = pass_iff
All-conditions_iff ((n, s) ∷ rest) =
    both (check_conditions n 0 s.transitions) (check_all_conditions rest)
      (conditions_iff n 0 s.transitions) (All-conditions_iff rest)

abbrev HasTerminal : List StateDefinition → Type 0
HasTerminal ss = (s : StateDefinition) × IsIn s ss × (s.terminal ≡ true)

terminal_of_any : (ss : List StateDefinition) → any (λ s. s.terminal) ss ≡ true → HasTerminal ss
terminal_of_any [] h = cc
terminal_of_any (x ∷ ss) h = elim (Bool-cases x.terminal) [
  | inl t ↦ (x, inl refl, t)
  | inr f ↦ let (s, m, t) = terminal_of_any ss (ground arith) in (s, inr m, t)
]

any_of_terminal : (ss : List StateDefinition) → HasTerminal ss → any (λ s. s.terminal) ss ≡ true
any_of_terminal [] (s, m, t) = elim m [ ]
any_of_terminal (x ∷ ss) (s, inl e, t) = ground arith
any_of_terminal (x ∷ ss) (s, inr m, t) = ground (arith, any_of_terminal ss (s, m, t))

initial_iff : (d : FsmDefinition) → (check_initial d ≡ ok tt) ↔ IsState d.initial d.states
unfolding check_initial
initial_iff d = (
  λ h. (IsState-iff d.initial d.states).0 (ground arith),
  λ h. rw ((IsState-iff d.initial d.states).1 h),
)

HasTerminal-iff :
    (d : FsmDefinition) → (check_has_terminal d ≡ ok tt) ↔ HasTerminal (values d.states)
unfolding check_has_terminal
HasTerminal-iff d = (
  λ h. terminal_of_any (values d.states) (ground arith),
  λ h. rw (any_of_terminal (values d.states) h),
)

-- Merging the two loops' findings state by state, and transition by transition.
transitions_split :
    (states : HashMap StateDefinition) (ts : List TransitionDefinition)
    → All (IsValidTransition states) ts
      ↔ (All (HasTarget states) ts × All (λ t. OptionAll IsValidCondition t.when) ts)
transitions_split states [] = (λ _. (tt, tt), λ _. tt)
transitions_split states (t ∷ ts) =
    let ih = transitions_split states ts in
    (
      λ h. let (a, b) = ih.0 h.1 in (((h.0.0, h.0.1), a), (h.0.2, b)),
      λ h. ((h.0.0.0, h.0.0.1, h.1.0), ih.1 (h.0.1, h.1.1)),
    )

states_split :
    (states : HashMap StateDefinition) (ss : List StateDefinition)
    → All (IsValidState states) ss ↔ (All (IsChecked states) ss × All HasConditions ss)
states_split states [] = (λ _. (tt, tt), λ _. tt)
states_split states (s ∷ ss) =
    let ih = states_split states ss in
    let t = transitions_split states s.transitions in
    (
      λ h. let (a, b) = ih.0 h.1 in let (x, y) = t.0 h.0.0 in (((x, h.0.1), a), (y, b)),
      λ h. ((t.1 (h.0.0.0, h.1.0), h.0.0.1), ih.1 (h.0.1, h.1.1)),
    )

-- `validate` accepts exactly the well-formed definitions: the initial state exists, every
-- transition leads to an existing state, its duration and its condition are readable, a terminal
-- state has no transitions, and there is a terminal state.
pub validate-ok_iff : (d : FsmDefinition) → (validate d ≡ ok tt) ↔ IsWellFormed d
unfolding validate
validate-ok_iff d =
    let parts = both (check_initial d) _ (initial_iff d) (
      both (check_states d.states d.states) _ (states_iff d.states d.states) (
        both (check_all_conditions d.states) (check_has_terminal d) (All-conditions_iff d.states)
          (HasTerminal-iff d))) in
    (
      λ h.
          let (i, (s, (c, t))) = parts.0 h in
          record {
            initial_exists = i;
            states_valid = (states_split d.states (values d.states)).1 (s, c);
            has_terminal = t;
          },
      λ w.
          let (s, c) = (states_split d.states (values d.states)).0 w.states_valid in
          parts.1 (w.initial_exists, (s, (c, w.has_terminal))),
    )
