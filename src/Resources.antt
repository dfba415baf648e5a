-- ===== src/Resources.antt =====
-- frontend/realtime/src/resources.ts: operations of the resource service and the poll for their end.
pub mod Operation
pub mod Request
pub mod Poll
pub mod Waiting
mod Tests
