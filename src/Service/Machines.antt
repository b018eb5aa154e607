-- ===== src/Service/Machines.antt =====
-- The calls of `ManagementService` in pacinet-server/src/service.rs about state machines, with the engine in
-- place. Reading a definition from YAML is `serde_yaml`'s, and its writing too: both are arguments.
pub mod Laws
use pacinet.Prelude.{
  ℕ, ◌%◌, String, ◌==◌, Bool, true, false, Option, none, some, List, [], ◌∷◌, map, Result, ok, err,
  ◌>>=◌, length, if◌then◌else◌,
}
use pacinet.Text.{◌<>◌}
use pacinet.HashMap.{HashMap}
use pacinet.Error.{PaciNetError, FsmError, StatusCode}
use pacinet.Fsm.Definition.{FsmDefinition, FsmKind, CompileOptions}
use pacinet.Fsm.Definition
use pacinet.Fsm.Validate.{validate}
use pacinet.Fsm.Status.{FsmInstanceStatus}
use pacinet.Fsm.Status
use pacinet.Fsm.Instance.{FsmInstance}
use pacinet.Storage.State.{MemoryStorage, Answer}
use pacinet.Storage.Interface.{memory}
use pacinet.Storage.Machines
use pacinet.Deploy.Fleet.{u32_size}
use pacinet.Engine.Transitions.{
  World, start_instance, start_adaptive_instance, advance_instance, cancel_instance,
}
use pacinet.Service.{Status, Reply, blocking, or_not_found, unless_empty, or_default}

-- `map_err(Status::invalid_argument)`
abbrev pub or_invalid : {A E : Type 0} → (E → String) → Result A E → Reply A
or_invalid text (ok a) = ok a
or_invalid text (err e) = err (record { code = StatusCode.invalid_argument; message = text e })

-- The definition that a text stands for, if it is one that may be stored.
unfoldable pub read_definition :
    (FsmError → String) → (String → Result FsmDefinition FsmError) → String → Reply FsmDefinition
read_definition fsm_text from_yaml yaml = do
  def ← or_invalid (λ e. "Invalid YAML: " <> fsm_text e) (from_yaml yaml)
  _ ← or_invalid (λ e. "Invalid definition: " <> fsm_text e) (validate def)
  ok def

-- The answer is the name of the definition.
unfoldable pub create_fsm_definition :
    (PaciNetError → String)
    → (FsmError → String)
    → (String → Result FsmDefinition FsmError)
    → String
    → MemoryStorage
    → Reply String × MemoryStorage
unfolding read_definition blocking
create_fsm_definition error_text fsm_text from_yaml definition_yaml s =
    elim (read_definition fsm_text from_yaml definition_yaml) [
      | err e ↦ (err e, s)
      | ok def ↦
          let (stored, t) = Machines.store_fsm_definition def s in
          (elim (blocking error_text stored) [ err e ↦ err e | ok _ ↦ ok def.name ], t)
    ]

-- The answer is the definition; `serde_yaml` writes it, or fails with a text.
unfoldable pub get_fsm_definition :
    (PaciNetError → String)
    → (FsmDefinition → Result String String)
    → String
    → MemoryStorage
    → Reply (FsmDefinition × String)
unfolding blocking
get_fsm_definition error_text to_yaml name s = do
  found ← blocking error_text (Machines.get_fsm_definition name s)
  def ← or_not_found ("FSM definition '" <> name <> "' not found") found
  yaml ← elim (to_yaml def) [
    | ok y ↦ ok y
    | err e ↦
        err (record { code = StatusCode.internal_error; message = "Failed to serialize: " <> e })
  ]
  ok (def, yaml)

-- The text of a filter, of which the empty one is none.
unfoldable pub parse_filter : {A : Type 0} → (String → Result A String) → String → Reply (Option A)
parse_filter parse text = elim (unless_empty text) [
  | none ↦ ok none
  | some t ↦ elim (or_invalid (λ e. e) (parse t)) [ err e ↦ err e | ok a ↦ ok (some a) ]
]

pub record FsmDefinitionSummary : Type 0 where
  pub name : String
  pub kind : String
  pub description : String
  pub state_count : ℕ
  pub initial_state : String

unfoldable pub summary_of : FsmDefinition → FsmDefinitionSummary
unfolding Definition.display
summary_of d = record {
  name = d.name;
  kind = Definition.display d.kind;
  description = d.description;
  state_count = length d.states % u32_size;
  initial_state = d.initial;
}

unfoldable pub list_fsm_definitions :
    (PaciNetError → String) → String → MemoryStorage → Reply (List FsmDefinitionSummary)
unfolding parse_filter blocking summary_of
list_fsm_definitions error_text kind s = do
  filter ← parse_filter Definition.from_str kind
  defs ← blocking error_text (Machines.list_fsm_definitions filter s)
  ok (map summary_of defs)

unfoldable pub delete_fsm_definition :
    (PaciNetError → String) → String → MemoryStorage → Reply (Bool × String) × MemoryStorage
unfolding blocking
delete_fsm_definition error_text name s =
    let (answer, t) = Machines.delete_fsm_definition name s in
    (
      elim (blocking error_text answer) [
        | err e ↦ err e
        | ok deleted ↦ ok (
          deleted,
          "FSM definition '" <> name <> (if deleted then "' deleted" else "' not found"),
        )
      ],
      t,
    )

pub record StartFsmRequest : Type 0 where
  pub definition_name : String
  pub rules_yaml : String
  pub options : Option CompileOptions
  pub target_label_filter : HashMap String

-- `success`, and the instance's identifier or its current state, and the message.
pub record FsmResponse : Type 0 where
  pub success : Bool
  pub subject : String
  pub message : String

unfoldable pub fsm_response :
    {A : Type 0} → (PaciNetError → String) → (A → String) → String → Answer A → FsmResponse
fsm_response error_text subject done (ok a) = record {
  success = true;
  subject = subject a;
  message = done;
}
fsm_response error_text subject done (err e) = record {
  success = false;
  subject = "";
  message = error_text e;
}

-- With a label filter the instance is one of an adaptive policy.
unfoldable pub start_engine :
    World → StartFsmRequest → MemoryStorage → Answer FsmInstance × MemoryStorage
start_engine w req s = elim req.target_label_filter [
  | [] ↦ start_instance memory w req.definition_name req.rules_yaml req.options s
  | label ∷ labels ↦
      start_adaptive_instance memory w req.definition_name (unless_empty req.rules_yaml) req.options
        (label ∷ labels) s
]

unfoldable pub start_fsm :
    World → StartFsmRequest → MemoryStorage → Reply FsmResponse × MemoryStorage
unfolding start_engine fsm_response
start_fsm w req s =
    let (started, t) = start_engine w req s in
    (ok (fsm_response w.error_text (λ i. i.instance_id) "FSM instance started" started), t)

unfoldable pub get_fsm_instance :
    (PaciNetError → String) → String → MemoryStorage → Reply FsmInstance
unfolding blocking
get_fsm_instance error_text instance_id s = do
  found ← blocking error_text (Machines.get_fsm_instance instance_id s)
  or_not_found ("FSM instance '" <> instance_id <> "' not found") found

unfoldable pub list_fsm_instances :
    (PaciNetError → String) → String → String → MemoryStorage → Reply (List FsmInstance)
unfolding parse_filter blocking
list_fsm_instances error_text definition_name status s = do
  filter ← parse_filter Status.from_str status
  blocking error_text (Machines.list_fsm_instances (unless_empty definition_name) filter s)

unfoldable pub advance_fsm :
    World → String → String → MemoryStorage → Reply FsmResponse × MemoryStorage
unfolding fsm_response
advance_fsm w instance_id target_state s =
    let (advanced, t) = advance_instance memory w instance_id (unless_empty target_state) s in
    (ok (fsm_response w.error_text (λ i. i.current_state) "FSM advanced" advanced), t)

unfoldable pub cancel_fsm :
    World → String → String → MemoryStorage → Reply FsmResponse × MemoryStorage
unfolding fsm_response
cancel_fsm w instance_id reason s =
    let (cancelled, t) = cancel_instance memory w instance_id reason s in
    (ok (fsm_response w.error_text (λ _. "") "FSM instance cancelled" cancelled), t)
