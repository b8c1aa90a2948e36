-- ===== src/Examples.antt =====
-- Concrete inputs: the theorems applied to them, and tests of the definitions.
mod Policy
mod Sessions
mod Engine
mod Validation
mod Healing
pub mod Agent
mod Termux
mod Connections
mod Connector
mod Installation
pub mod Tools
mod Requests
pub mod Chat
mod Turns
