-- ===== src/Contract.antt =====
-- python/neural_memory_contract.py: the immutable values of the memory research, one module to a
-- class. Each class is a record, and its `__post_init__` a check of the record.
mod Values
pub mod Message
pub mod Context
pub mod Span
pub mod Episode
pub mod State
pub mod Operation
pub mod Delta
pub mod Read
pub use Values.*
