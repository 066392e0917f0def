-- ===== src/Jobs.antt =====
-- database_utils/utils/provisioning_jobs.py: the terminal transition of a job and what follows it.
pub mod Finish
pub mod Parked
pub mod Laws
pub mod ParkedLaws
mod Examples
