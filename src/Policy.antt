-- ===== src/Policy.antt =====
-- The decisions that guard an operation: where a driver dials (utils/transport.py), whether a live
-- run may start (utils/provisioning_gates.py), what a user may do (utils/permission_utils.py) and
-- what an unpaid tenant may do (utils/tier_limits.py), all under database_utils/.
pub mod Strings
pub mod Transport
pub mod TransportLaws
pub mod Gates
pub mod GateLaws
pub mod Permissions
pub mod Billing
mod Examples
