-- ===== src/Workers.antt =====
-- soc/workers/: the outbox, in which scored windows wait for their delivery.
pub mod Outbox
