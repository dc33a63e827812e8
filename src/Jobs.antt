-- ===== src/Jobs.antt =====
-- Execution jobs (backend/app): the job record, its store, and the service that drives a job
-- through its state machine.
pub mod Model
pub mod Store
pub mod Changes
pub mod World
pub mod Lifecycle
pub mod Service
pub mod Submission
pub mod Finalizer
pub mod Worker
pub mod Launcher
pub mod Dynamo
mod Tests
