-- ===== src/Runner.antt =====
-- cli/api/commands/run.ts, the executor of an execution graph: `State` is the runner's fields,
-- `Tasks` runs the tasks of one action, `Schedule` chooses the actions and `Slots` caps extracts.
pub mod Retry
pub mod Slots
pub mod State
pub mod Tasks
pub mod Schedule
pub mod Schemas
pub mod Examples
