-- ===== src/Policy.antt =====
-- Response policies.
pub mod Fields
pub mod Protection
pub mod Rules
pub mod Catalog
pub mod Listed
pub mod Eligible
mod Tests
pub mod Loaded
