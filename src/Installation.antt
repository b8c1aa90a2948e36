-- ===== src/Installation.antt =====
-- The installation of tools (services/installation).
pub mod Models
pub mod Requests
pub mod Checking
pub mod Readiness
pub mod Planner
pub mod Requesting
pub mod Service
pub mod Attempts
pub mod Outcomes
