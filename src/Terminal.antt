-- ===== src/Terminal.antt =====
-- The terminal engine (services/terminal): sessions, validation, command templates and execution.
pub mod Models
pub mod Sessions
pub mod Validation
pub mod Output
pub mod Templates
pub mod Controller
pub mod Commands
pub mod Engine
pub mod Interleavings
