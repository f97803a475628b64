-- ===== src/Queue.antt =====
-- The job queue of the backend.
pub mod States
pub mod Status
pub mod Machine
pub mod Transitions
pub mod Store
pub mod Service
pub mod Recovery
pub mod Readiness
pub mod Worker
pub mod Submission
pub mod Kept
pub mod Lawful
mod Tests
