-- ===== src/Agent.antt =====
-- The agent orchestrator (services/agent_orchestrator).
pub mod Models
pub mod Gate
pub mod Recovery
pub mod Orchestrator
pub mod Tasks
