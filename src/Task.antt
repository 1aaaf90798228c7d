-- ===== src/Task.antt =====
-- internal/logic/task: upgrade tasks that are rolled out to hosts batch by batch. Every query of the
-- package that is modelled is restricted to one task, so the state is the rows of one task.
pub mod Rows
pub mod Reconcile
pub mod Db
pub mod Orchestrator
pub mod Advance
pub mod Owner
pub mod Api
pub mod Retry
pub mod System
pub mod Batches
mod Tests
