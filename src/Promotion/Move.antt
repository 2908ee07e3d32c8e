-- ===== src/Promotion/Move.antt =====
-- src/aizk/graph/promote.py: a move as a whole, and the same move again.
pub mod Sources
pub mod Retired
pub mod Moved
pub mod Passages
pub mod Arrivals
pub mod Complete
pub mod Again
