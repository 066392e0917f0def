-- ===== src/Workflow.antt =====
-- database_utils/utils/workflow_engine.py: which workflows an event starts, and the order in which
-- a workflow's steps run.
pub mod Triggers
pub mod TriggerLaws
pub mod Kahn
pub mod KahnInvariant
pub mod KahnReduce
pub mod KahnLoop
pub mod KahnStart
pub mod KahnLaws
mod Examples
pub mod CycleLaws
