-- ===== src/Model/Deployment.antt =====
-- `DeploymentResult` of pacinet-core/src/model.rs.
use pacinet.Prelude.{
  String, ◌==◌, ◌≡◌, ◌↔◌, eq_iff, arith, Bool, true, false, Result, ok, err, if◌then◌else◌,
}
use pacinet.Text.{to_lowercase, ◌<>◌}

pub data DeploymentResult : Type 0 where
  success agent_failure agent_unreachable timeout : DeploymentResult

unfoldable pub display : DeploymentResult → String
display success = "success"
display agent_failure = "agent_failure"
display agent_unreachable = "agent_unreachable"
display timeout = "timeout"

unfoldable pub from_str : String → Result DeploymentResult String
from_str s =
    let t = to_lowercase s in
    if t == "success"
    then ok success
    else if t == "agent_failure"
    then ok agent_failure
    else if t == "agent_unreachable"
    then ok agent_unreachable
    else if t == "timeout"
    then ok timeout
    else err ("unknown deployment result: " <> s)

-- The derived `==` with `Success`.
abbrev pub is_success : DeploymentResult → Bool
is_success success = true
is_success _ = false

result_of_from_str :
    (s : String) (r : DeploymentResult) → from_str s ≡ ok r → to_lowercase s ≡ display r
unfolding from_str display
result_of_from_str s r h =
    let t = to_lowercase s in
    ground (
      arith,
      eq_iff t "success",
      eq_iff t "agent_failure",
      eq_iff t "agent_unreachable",
      eq_iff t "timeout",
    )

from_str_of_display :
    (s : String) (r : DeploymentResult) → to_lowercase s ≡ display r → from_str s ≡ ok r
unfolding from_str display
from_str_of_display s success h = rw h
from_str_of_display s r h = rw h

-- A text reads as a result exactly when its lower case is the printed form of that result.
pub DeploymentResult-from_str_iff :
    (s : String) (r : DeploymentResult) → (from_str s ≡ ok r) ↔ (to_lowercase s ≡ display r)
DeploymentResult-from_str_iff s r = (result_of_from_str s r, from_str_of_display s r)
