-- ===== src/Storage/Deploys.antt =====
-- The deploy guard of `MemoryStorage`, and the record of deployments.
pub mod Guard
use mathlib.Core.List.{reverse}
use pacinet.Prelude.{ℕ, String, ◌==◌, List, [], ◌∷◌, ◌++◌, ok, err, take, keep, if◌then◌else◌}
use pacinet.HashMap.{set_insert, set_remove}
use pacinet.Error.{concurrent_deploy}
use pacinet.Model.{DeploymentRecord}
use pacinet.Storage.State.{MemoryStorage, Answer, Method}

unfoldable pub record_deployment : DeploymentRecord → Method (Unit {0})
record_deployment entry s = (ok tt, record s { deployments = s.deployments ++ entry ∷ [] })

unfoldable pub get_deployments : String → ℕ → MemoryStorage → Answer (List DeploymentRecord)
get_deployments node_id limit s =
    ok (take limit (keep (λ d. d.node_id == node_id) (reverse s.deployments)))

unfoldable pub begin_deploy : String → Method (Unit {0})
begin_deploy node_id s =
    let (deploying, is_new) = set_insert node_id s.deploying in
    (if is_new then ok tt else err (concurrent_deploy node_id), record s { deploying = deploying })

unfoldable pub end_deploy : String → MemoryStorage → MemoryStorage
end_deploy node_id s = record s { deploying = set_remove node_id s.deploying }
