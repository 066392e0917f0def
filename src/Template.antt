-- ===== src/Template.antt =====
-- database_utils/utils/playbook_template.py: the filter language, rendering, and the variables.
pub mod Errors
pub mod Filters
pub mod Parser
pub mod Render
pub mod Ensures
pub mod NameLaws
pub mod WellFormed
pub mod RoundTrip
pub mod FilterLaws
pub mod RenderLaws
pub mod CheckLaws
pub mod Variables
pub mod ReservedLaws
pub mod MacLaws
pub mod Captures
pub mod CaptureLaws
pub mod KeepLaws
pub mod MergeLaws
pub mod Redaction
pub mod RedactLaws
pub mod SecretLaws
mod Examples
mod CaptureExamples
