-- ===== src/Tools.antt =====
-- The trust in tools (services/tools).
pub mod Verification
pub mod Eligibility
pub mod Registry
