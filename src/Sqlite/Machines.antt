-- ===== src/Sqlite/Machines.antt =====
-- The definitions and the instances of state machines in pacinet-server/src/storage/sqlite.rs.
use pacinet.Prelude.{
  String, ◌==◌, Bool, Option, none, some, List, [], ◌∷◌, Result, ok, err, keep, is_some, is_none_or,
  if◌then◌else◌,
}
use pacinet.HashMap.{get, insert, remove, values, contains_key}
use pacinet.Error.{internal, fsm, instance_not_found}
use pacinet.Fsm.Definition.{FsmDefinition, FsmKind}
use pacinet.Fsm.Definition
use pacinet.Fsm.Status.{FsmInstanceStatus, same_status}
use pacinet.Fsm.Instance.{FsmInstance}
use pacinet.Storage.State.{Answer}
use pacinet.Sqlite.{SqliteStorage, SqlMethod, Constraints, DefinitionRow}
use pacinet.Sqlite.Rows.{or_internal}
use pacinet.Sqlite.Logs.{OrderBy}

-- What `serde_json` makes of a definition, and of a text, with its errors as texts.
pub record DefinitionJson : Type 0 where
  pub to_json : FsmDefinition → Result String String
  pub from_json : String → Result FsmDefinition String

-- `INSERT OR REPLACE`
unfoldable pub store_fsm_definition : DefinitionJson → FsmDefinition → SqlMethod (Unit {0})
store_fsm_definition json def s = elim (or_internal (json.to_json def)) [
  | err e ↦ (err e, s)
  | ok text ↦ (
    ok tt,
    record s {
      fsm_definitions =
          insert def.name (record { kind = Definition.display def.kind; definition_json = text })
            s.fsm_definitions;
    },
  )
]

-- The definition of the row that a name has, if it has one.
unfoldable pub read_row : DefinitionJson → Option DefinitionRow → Answer (Option FsmDefinition)
read_row json none = ok none
read_row json (some row) = elim (or_internal (json.from_json row.definition_json)) [
  | err e ↦ err e
  | ok def ↦ ok (some def)
]

unfoldable pub get_fsm_definition :
    DefinitionJson → String → SqliteStorage → Answer (Option FsmDefinition)
unfolding read_row
get_fsm_definition json name s = read_row json (get name s.fsm_definitions)

-- `filter_map(|j| serde_json::from_str(&j).ok())`
unfoldable pub read_definitions : DefinitionJson → List DefinitionRow → List FsmDefinition
read_definitions json [] = []
read_definitions json (row ∷ rows) =
    let rest = read_definitions json rows in
    elim (json.from_json row.definition_json) [ err e ↦ rest | ok def ↦ def ∷ rest ]

unfoldable pub list_fsm_definitions :
    DefinitionJson → Option FsmKind → SqliteStorage → Answer (List FsmDefinition)
unfolding read_definitions
list_fsm_definitions json kind s = ok (
    read_definitions json (
      keep (λ row. is_none_or kind (λ k. row.kind == Definition.display k))
        (values s.fsm_definitions)))

unfoldable pub delete_fsm_definition : String → SqlMethod Bool
delete_fsm_definition name s = (
  ok (is_some (get name s.fsm_definitions)),
  record s { fsm_definitions = remove name s.fsm_definitions },
)

unfoldable pub store_fsm_instance : Constraints → FsmInstance → SqlMethod (Unit {0})
store_fsm_instance texts instance_ s =
    if contains_key instance_.instance_id s.fsm_instances
    then (err (internal texts.primary_key), s)
    else (
      ok tt,
      record s { fsm_instances = insert instance_.instance_id instance_ s.fsm_instances },
    )

unfoldable pub get_fsm_instance : String → SqliteStorage → Answer (Option FsmInstance)
get_fsm_instance id s = ok (get id s.fsm_instances)

-- No row is updated when there is none with the identifier.
unfoldable pub update_fsm_instance : FsmInstance → SqlMethod (Unit {0})
update_fsm_instance instance_ s =
    if contains_key instance_.instance_id s.fsm_instances
    then (
      ok tt,
      record s { fsm_instances = insert instance_.instance_id instance_ s.fsm_instances },
    )
    else (err (fsm (instance_not_found instance_.instance_id)), s)

unfoldable pub list_fsm_instances :
    OrderBy → Option String → Option FsmInstanceStatus → SqliteStorage → Answer (List FsmInstance)
list_fsm_instances order def_name status s = ok (
    order.descending (λ i. i.created_at)
      (keep (λ i. is_none_or status (λ t. same_status i.status t))
        (keep (λ i. is_none_or def_name (λ n. i.definition_name == n)) (values s.fsm_instances))))
