-- ===== src/Deploy.antt =====
-- The deployment of policies to nodes: pacinet-server/src/deploy.rs.
pub mod Options
pub mod Node
pub mod Fleet
