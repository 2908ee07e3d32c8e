-- ===== src/Promotion/Standing.antt =====
-- src/aizk/graph/promote.py: what the statements of a batch leave of the rows by which it finds its
-- sources and their copies.
pub mod Finding
pub mod Effects
pub mod Confined
pub mod Rounds
pub mod Leaves
pub mod Batch
