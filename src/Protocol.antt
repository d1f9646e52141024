-- ===== src/Protocol.antt =====
-- python/neural_memory_protocol.py: evaluation boundaries and conservative scoring.
pub mod Claims
pub mod Score
pub mod Trace
