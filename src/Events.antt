-- ===== src/Events.antt =====
-- The event library, libs/architect-events/src/architect_events.
pub mod Streams
pub mod Subscriber
pub mod Dlq
mod Tests
