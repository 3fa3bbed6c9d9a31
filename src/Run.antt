-- ===== src/Run.antt =====
-- api/commands/run.ts: the runner of an execution graph.
-- `State` is the state, `Cache` the decision to skip by the cache, `Schedule` which actions are started
-- and skipped and what happens when an action completes, `Tasks` the tasks of one action, and `Schemas`
-- the schemas that are created first.
pub mod State
pub mod Cache
pub mod Schedule
pub mod Tasks
pub mod Schemas
