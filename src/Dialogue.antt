-- ===== src/Dialogue.antt =====
-- python/prepare_repeated_dialogue_curriculum.py: the generator of the repeated-dialogue curriculum.
pub mod Catalog
pub mod Format
pub mod Dates
pub mod Bank
pub mod Rows
pub mod Worlds
pub mod Splits
pub mod Main
