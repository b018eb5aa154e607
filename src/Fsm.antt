-- ===== src/Fsm.antt =====
-- pacinet-core/src/fsm: definitions of state machines, their durations and their instances.
pub mod Duration
pub mod Definition
pub mod Validate
pub mod Status
pub mod Instance
