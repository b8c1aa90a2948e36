-- ===== src/Termux.antt =====
-- The connector of Termux devices (services/termux).
pub mod Pairing
pub mod Pending
pub mod Manager
pub mod Messages
pub mod Gateway
pub mod Calls
pub mod Adapter
pub mod Connector
