-- ===== src/Resolution.antt =====
-- database_utils/utils/provisioning_resolution.py: the path, the playbooks and the variables of a
-- service's run, or the reasons why it cannot start.
pub mod Rows
pub mod Nodes
pub mod Outcome
pub mod Shared
pub mod Tokens
pub mod Explain
pub mod Refusals
pub mod Resolve
pub mod Ready
pub mod StepLaws
pub mod ResolveLaws
pub mod Exact
mod Examples
