-- ===== src/Service/Machines/Laws.antt =====
-- Only validated definitions are stored, and what this means for the instances.
use pacinet.Prelude.{
  String, ◌≡◌, ◌⊎◌, inl, inr, refl, true, Option, none, some, Result, ok, err, arith, Result-cases,
  Option-cases,
}
use mathlib.Core.Path.{subst}
use pacinet.HashMap.{get}
use pacinet.HashMap.Laws.{Entries, Entries-insert, Entries-remove, Entries-get, get-insert_self}
use pacinet.Error.{PaciNetError, FsmError, StatusCode}
use pacinet.Fsm.Definition.{FsmDefinition}
use pacinet.Fsm.Validate.{validate}
use pacinet.Storage.State.{MemoryStorage}
use pacinet.Storage.Machines.{store_fsm_definition, delete_fsm_definition}
use pacinet.Storage.Machines.{get_fsm_definition, get_fsm_instance}
use pacinet.Storage.Interface.{memory}
use pacinet.Fsm.Instance.{FsmInstance}
use pacinet.Fsm.Validate.Spec.{IsState}
use pacinet.Engine.Transitions.{World, find_instance, find_definition, advance_instance}
use pacinet.Engine.Transitions.Advance.{advance_instance-IsState}
use pacinet.Service.{blocking, unless_empty}
use pacinet.Service.Machines.{
  read_definition, create_fsm_definition, delete_fsm_definition as delete_call, advance_fsm,
  FsmResponse, fsm_response,
}

-- Each stored definition passes validation.
abbrev pub IsValidated : MemoryStorage → Type 0
IsValidated s = Entries (λ _ d. validate d ≡ ok tt) s.fsm_definitions

-- The text is not read as a definition, or what it stands for does not pass validation.
abbrev pub IsUnfit : (String → Result FsmDefinition FsmError) → String → Type 0
IsUnfit from_yaml yaml =
    ((x : FsmError) × (from_yaml yaml ≡ err x))
    ⊎ ((d : FsmDefinition) × (x : FsmError) × (from_yaml yaml ≡ ok d) × (validate d ≡ err x))

module _ (fsm_text : FsmError → String) (from_yaml : String → Result FsmDefinition FsmError) where
  read_definition-cases :
      (yaml : String)
      → ((d : FsmDefinition) × (from_yaml yaml ≡ ok d)
          × (validate d ≡ ok tt)
          × (read_definition fsm_text from_yaml yaml ≡ ok d))
        ⊎ (IsUnfit from_yaml yaml
            × (message : String) × (read_definition fsm_text from_yaml yaml
                ≡ err (record { code = StatusCode.invalid_argument; message = message })))
  unfolding read_definition
  read_definition-cases yaml = elim (Result-cases (from_yaml yaml)) [
    | inl (d, e) ↦ elim (Result-cases (validate d)) [
      | inl (u, v) ↦ rw (e, v, read_definition) (inl (d, refl, v, refl))
      | inr (x, v) ↦ rw (e, v, read_definition) (inr (inr (d, x, refl, v), _, refl))
    ]
    | inr (x, e) ↦ rw (e, read_definition) (inr (inl (x, refl), _, refl))
  ]

-- A definition is stored exactly if the text is read and what it stands for passes validation: then the
-- answer is its name, under which it is found; otherwise the call is refused with INVALID_ARGUMENT
-- and changes nothing. A store whose definitions are validated stays so, also when one is deleted.
pub create_fsm_definition_lem :
    (error_text : PaciNetError → String) (fsm_text : FsmError → String)
    (from_yaml : String → Result FsmDefinition FsmError) (yaml name : String) (s : MemoryStorage)
    → IsValidated s
    → let r = create_fsm_definition error_text fsm_text from_yaml yaml s in
      (((d : FsmDefinition) × (from_yaml yaml ≡ ok d)
          × (validate d ≡ ok tt)
          × (r.0 ≡ ok d.name)
          × (get d.name r.1.fsm_definitions ≡ some d))
        ⊎ (IsUnfit from_yaml yaml
            × (message : String) × (r
                ≡ (err (record { code = StatusCode.invalid_argument; message = message }), s))))
      × IsValidated r.1
      × IsValidated (delete_call error_text name s).1
unfolding create_fsm_definition store_fsm_definition delete_call delete_fsm_definition blocking
create_fsm_definition_lem error_text fsm_text from_yaml yaml name s h =
    let kept = Entries-remove (λ _ d. validate d ≡ ok tt) name s.fsm_definitions h in
    elim (read_definition-cases fsm_text from_yaml yaml) [
      | inl (d, e, v, q) ↦
          rw (q, create_fsm_definition)
            (
              inl (d, e, v, refl, get-insert_self d.name d s.fsm_definitions),
              Entries-insert (λ _ x. validate x ≡ ok tt) d.name d s.fsm_definitions v h,
              kept,
            )
      | inr (unfit, message, q) ↦
          rw (q, create_fsm_definition) (inr (unfit, message, refl), h, kept)
    ]

module _ (w : World) (id : String) (s : MemoryStorage) where
  found_instance :
      (i : FsmInstance) → get id s.fsm_instances ≡ some i → find_instance memory w id s ≡ ok i
  unfolding find_instance get_fsm_instance
  found_instance i n = rw (n, find_instance) refl

  found_definition :
      (d : FsmDefinition) → get id s.fsm_definitions ≡ some d → find_definition memory w id s ≡ ok d
  unfolding find_definition get_fsm_definition
  found_definition d n = rw (n, find_definition) refl

  missing_instance :
      (target : Option String) (j : FsmInstance)
      → get id s.fsm_instances ≡ none
      → (advance_instance memory w id target s).0 ≡ ok j
      → ⊥
  unfolding advance_instance find_instance get_fsm_instance
  missing_instance target j n h = ground (arith, n, h)

  missing_definition :
      (target : Option String) (i j : FsmInstance)
      → get id s.fsm_instances ≡ some i
      → get i.definition_name s.fsm_definitions ≡ none
      → (advance_instance memory w id target s).0 ≡ ok j
      → ⊥
  unfolding advance_instance find_instance get_fsm_instance find_definition get_fsm_definition
  missing_definition target i j n m h = ground (arith, n, m, h)

-- On a store whose definitions are validated, an instance that `advance_fsm` says it advanced is of a
-- stored definition, and the state that the answer names is one of the definition's.
pub advance_fsm-IsState :
    (w : World) (id target_state : String) (r : FsmResponse) (s : MemoryStorage)
    → IsValidated s
    → (advance_fsm w id target_state s).0 ≡ ok r
    → r.success ≡ true
    → (i : FsmInstance) × (d : FsmDefinition) × (get id s.fsm_instances ≡ some i)
      × (get i.definition_name s.fsm_definitions ≡ some d)
      × IsState r.subject d.states
unfolding advance_fsm fsm_response
advance_fsm-IsState w id target_state r s h answered done =
    let target = unless_empty target_state in
    elim (Result-cases (advance_instance memory w id target s).0) [
      | inr (x, e) ↦ absurd (ground (arith, answered, done, e))
      | inl (j, e) ↦ elim (Option-cases (get id s.fsm_instances)) [
        | inl n ↦ absurd (missing_instance w id s target j n e)
        | inr (i, n) ↦ elim (Option-cases (get i.definition_name s.fsm_definitions)) [
          | inl m ↦ absurd (missing_definition w id s target i j n m e)
          | inr (d, m) ↦
              let valid =
                Entries-get (λ _ x. validate x ≡ ok tt) i.definition_name s.fsm_definitions h m in
              let state =
                advance_instance-IsState memory w id target i j d s (found_instance w id s i n)
                  (found_definition w i.definition_name s d m) valid e in
              (i, d, n, m, subst (λ x. IsState x d.states) (ground (arith, answered, e)) state)
        ]
      ]
    ]
