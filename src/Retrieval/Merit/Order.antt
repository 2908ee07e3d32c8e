-- ===== src/Retrieval/Merit/Order.antt =====
-- src/aizk/retrieval/rerank/rescore.py: what the merit order keeps and what it puts first.
use aizk.Retrieval.Candidate.{Candidate}
