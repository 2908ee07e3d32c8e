-- ===== src/Promotion/Covers.antt =====
-- src/aizk/graph/promote.py, src/aizk/graph/dedupe.py: the facts of a source in the destination.
pub mod Claims
pub mod Facts
