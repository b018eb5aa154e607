-- ===== src/Fsm/Definition.antt =====
-- The types of pacinet-core/src/fsm/definition.rs, `FsmKind` with its text form, and the kind of an
-- action. YAML parsing is serde's and stays outside.
use pacinet.Prelude.{
  ℕ, String, ◌==◌, ◌≡◌, ◌↔◌, eq_iff, arith, Bool, true, false, Option, List, Result, ok, err,
  is_some, if◌then◌else◌,
}
use pacinet.Text.{to_lowercase, ◌<>◌}
use pacinet.HashMap.{HashMap}

pub data FsmKind : Type 0 where
  deployment adaptive_policy : FsmKind

abbrev pub same_kind : FsmKind → FsmKind → Bool
same_kind deployment deployment = true
same_kind adaptive_policy adaptive_policy = true
same_kind _ _ = false

unfoldable pub display : FsmKind → String
display deployment = "deployment"
display adaptive_policy = "adaptive_policy"

unfoldable pub from_str : String → Result FsmKind String
from_str s =
    let t = to_lowercase s in
    if t == "deployment"
    then ok deployment
    else if t == "adaptive_policy"
    then ok adaptive_policy
    else err ("unknown FSM kind: " <> s)

-- An `f64` is its 64 bits; the operations on it are arguments of what computes with it.
abbrev pub F64 : Type 0
F64 = ℕ

pub record SimpleCondition : Type 0 where
  pub all_succeeded : Option Bool
  pub any_failed : Option Bool
  pub manual : Option Bool

pub record CounterCondition : Type 0 where
  pub counter : String
  pub rate_above : Option F64
  pub rate_below : Option F64
  pub total_above : Option ℕ
  pub for_duration : Option String
  pub aggregate : Option String
  pub field : Option String

-- `Option<Vec<ConditionDefinition>>` and `Option<Box<ConditionDefinition>>` are types of the block.
mutual
  pub data ConditionDefinition : Type 0 where
    counter : CounterCondition → ConditionDefinition
    simple : SimpleCondition → ConditionDefinition
    compound : MaybeConditions → MaybeConditions → MaybeCondition → ConditionDefinition

  pub data Conditions : Type 0 where
    nil : Conditions
    cons : ConditionDefinition → Conditions → Conditions

  pub data MaybeConditions : Type 0 where
    absent : MaybeConditions
    present : Conditions → MaybeConditions

  pub data MaybeCondition : Type 0 where
    missing : MaybeCondition
    given : ConditionDefinition → MaybeCondition

pub record TransitionDefinition : Type 0 where
  pub to : String
  pub when : Option ConditionDefinition
  pub after : Option String

pub record CompileOptions : Type 0 where
  pub counters : Bool
  pub rate_limit : Bool
  pub conntrack : Bool
  pub axi : Bool
  pub ports : ℕ
  pub target : String
  pub dynamic : Bool
  pub dynamic_entries : ℕ
  pub width : ℕ
  pub ptp : Bool
  pub rss : Bool
  pub rss_queues : ℕ
  pub int : Bool
  pub int_switch_id : ℕ

pub record NodeSelector : Type 0 where
  pub label : HashMap String
  pub limit : Option ℕ

pub record DeployAction : Type 0 where
  pub select : NodeSelector
  pub batch_percent : Option ℕ
  pub options : Option CompileOptions

pub data RollbackTarget : Type 0 where
  previous : RollbackTarget
  version : ℕ → RollbackTarget

pub record RollbackAction : Type 0 where
  pub target : RollbackTarget

pub record BasicAuth : Type 0 where
  pub username : String
  pub password : String

pub record WebhookConfig : Type 0 where
  pub url : String
  pub method : Option String
  pub bearer_token : Option String
  pub basic_auth : Option BasicAuth
  pub timeout_seconds : Option ℕ
  pub max_retries : Option ℕ
  pub headers : HashMap String

pub record AlertAction : Type 0 where
  pub channel : Option String
  pub message : String
  pub webhook : Option WebhookConfig

pub record ActionDefinition : Type 0 where
  pub deploy : Option DeployAction
  pub rollback : Option RollbackAction
  pub alert : Option AlertAction

-- `ActionDefinition::kind`
unfoldable pub kind : ActionDefinition → String
kind a =
    if is_some a.deploy
    then "deploy"
    else if is_some a.rollback
    then "rollback"
    else if is_some a.alert
    then "alert"
    else "none"

pub record StateDefinition : Type 0 where
  pub action : Option ActionDefinition
  pub transitions : List TransitionDefinition
  pub terminal : Bool

pub record FsmDefinition : Type 0 where
  pub name : String
  pub description : String
  pub kind : FsmKind
  pub initial : String
  pub states : HashMap StateDefinition

kind_of_from_str : (s : String) (k : FsmKind) → from_str s ≡ ok k → to_lowercase s ≡ display k
unfolding from_str display
kind_of_from_str s k h =
    let t = to_lowercase s in ground (arith, eq_iff t "deployment", eq_iff t "adaptive_policy")

from_str_of_display : (s : String) (k : FsmKind) → to_lowercase s ≡ display k → from_str s ≡ ok k
unfolding from_str display
from_str_of_display s deployment h = rw h
from_str_of_display s k h = rw h

-- A text reads as a kind exactly when its lower case is the printed form of that kind.
pub FsmKind-from_str_iff :
    (s : String) (k : FsmKind) → (from_str s ≡ ok k) ↔ (to_lowercase s ≡ display k)
FsmKind-from_str_iff s k = (kind_of_from_str s k, from_str_of_display s k)
