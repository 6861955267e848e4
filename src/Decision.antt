-- ===== src/Decision.antt =====
-- response/decision.py: from an anomaly and independent signals to a signed command, or to none.
pub mod Evidence
pub mod Engine
pub mod Corroborated
pub mod Gate
pub mod Contract
pub mod Issued
mod Tests
