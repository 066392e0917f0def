-- ===== src/Runs.antt =====
-- database_utils/utils/provisioning_runs.py: service-path provisioning runs.
-- The children hold the rows, the plan, the reading of a child's log, the rollback builder, the
-- advance of a run and the office actions; the others prove what they are named for.
pub mod Rows
pub mod Plan
pub mod Logs
pub mod Session
pub mod Rollback
pub mod Finish
pub mod Advance
pub mod Office
pub mod Moves
pub mod AdvanceLaws
pub mod Laziness
pub mod PlanLaws
pub mod LogLaws
pub mod FinishLaws
pub mod Repair
pub mod RepairLaws
pub mod Open
pub mod OpenLaws
pub mod OfficeGuards
pub mod OfficeLaws
pub mod RetryItems
pub mod RetryEnds
pub mod RetryLaws
pub mod Trace
pub mod UndoSteps
pub mod UndoLaws
pub mod Lifecycle
pub mod Fixtures
mod Examples
