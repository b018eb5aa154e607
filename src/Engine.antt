-- ===== src/Engine.antt =====
-- The engine that runs the machines of the FSM definitions: pacinet-server/src/fsm_engine.rs.
pub mod Conditions
pub mod Actions
pub mod Transitions
