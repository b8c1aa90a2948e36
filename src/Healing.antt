-- ===== src/Healing.antt =====
-- The self-healing engine (services/self_healing): diagnosis, strategy and history.
pub mod Diagnosis
pub mod Planner
pub mod History
