-- ===== src/Compliance.antt =====
-- The policy for real-value play, server/compliance/policy.js.
pub mod Policy
pub mod Evidence
pub mod Reasons
pub mod Decide
pub mod Allowlist
pub mod Eligible
pub mod Expiry
mod Tests
