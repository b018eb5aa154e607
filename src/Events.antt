-- ===== src/Events.antt =====
-- The events of pacinet-server/src/events.rs and the form in which they are stored, and the streams of
-- them that pacinet-server/src/service.rs serves. A broadcast channel is a library's: an operation that
-- emits answers with the events that it sends, in their order. The identifier of a stored event and the
-- JSON text of its payload are arguments.
pub mod Machine
pub mod Fleet
pub mod Watch
