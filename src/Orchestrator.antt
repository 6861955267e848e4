-- ===== src/Orchestrator.antt =====
-- The orchestrator.
pub mod Machine
pub mod Operations
pub mod Enforcement
pub mod Restart
pub mod Steps
pub mod Journaled
pub mod Trail
pub mod Once
pub mod Authorized
mod Tests
