-- ===== src/Chat.antt =====
-- Chat with a model (services/agent).
pub mod Schemas
pub mod Validation
pub mod Gemini
pub mod Context
pub mod Prompts
pub mod Retry
pub mod Pipeline
