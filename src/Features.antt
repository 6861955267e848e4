-- ===== src/Features.antt =====
-- ai/features/: from normalised events to feature vectors (engine.py), the closed list of features of each
-- schema (contracts.py), and the windows before a window (sequences.py).
pub mod Contract
pub mod Sequences
pub mod Events
pub mod Network
pub mod Endpoint
pub mod Vectors
pub mod Bounds
pub mod Selected
mod Tests
