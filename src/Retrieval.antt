-- ===== src/Retrieval.antt =====
-- src/aizk/retrieval: the Python half of one find, from the candidate rows the statement returned
-- to the pack that fits the caller's token budget.
pub mod Candidate
pub mod Packing
pub mod Merit
